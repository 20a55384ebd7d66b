-- ===== src/Prelude/Lists.antt =====
-- Lists measured by native numbers, and JavaScript's array methods with Boolean callbacks.
use Prim.Native.Nat.{ℕ, suc, ◌+◌, ◌≤◌}
use mathlib.Core.Path.{◌≡◌, refl, sym, subst, ap, ◌∙◌}
use mathlib.Core.Logic.{◌⊎◌, inl, inr}
use mathlib.Core.Bool.{Bool, true, false, ◌&&◌, ◌||◌}
use mathlib.Core.List.{Memᴰ, List, [], ◌∷◌, ◌++◌}
use mathlib.Core.Option.{Option, none, some}
use native.Mathlib.Omega.{arith}
use omnidat.Prelude.Tests.{Bool-cases, if◌then◌else◌}
use omnidat.Prelude.Equality.{Comparable, ◌==◌}

module _ {ℓ} {A : Type ℓ} where
  abbrev pub length : List A → ℕ
  length [] = 0
  length (x ∷ xs) = suc (length xs)

  -- `xs.filter(p)`, `xs.find(p)`, `xs.some(p)`, `xs.every(p)`
  abbrev pub filter : (A → Bool) → List A → List A
  filter p [] = []
  filter p (x ∷ xs) = if p x then x ∷ filter p xs else filter p xs

  abbrev pub find : (A → Bool) → List A → Option A
  find p [] = none
  find p (x ∷ xs) = if p x then some x else find p xs

  abbrev pub any : (A → Bool) → List A → Bool
  any p [] = false
  any p (x ∷ xs) = p x || any p xs

  abbrev pub all : (A → Bool) → List A → Bool
  all p [] = true
  all p (x ∷ xs) = p x && all p xs

  pub length-append : (xs ys : List A) → length (xs ++ ys) ≡ length xs + length ys
  length-append [] ys = omega arith
  length-append (x ∷ xs) ys = omega (arith, length-append xs ys)

  pub filter-append :
      (p : A → Bool) (xs ys : List A) → filter p (xs ++ ys) ≡ filter p xs ++ filter p ys
  filter-append p [] ys = refl
  filter-append p (x ∷ xs) ys = ground (arith, filter-append p xs ys)

  pub length-filter-le : (p : A → Bool) (xs : List A) → length (filter p xs) ≤ length xs
  length-filter-le p [] = omega arith
  length-filter-le p (x ∷ xs) = ground (arith, length-filter-le p xs)

module _ {ℓ} {A : Type ℓ} where
  -- What `find` returns is in the list and passes the test.
  pub find-some :
      (p : A → Bool) (xs : List A) (x : A) → find p xs ≡ some x → Memᴰ x xs × (p x ≡ true)
  find-some p [] x e = cc
  find-some p (y ∷ xs) x e = elim (Bool-cases (p y)) [
    | inl hit ↦ let same : y ≡ x = ground arith in (Memᴰ.head (sym same), ap p (sym same) ∙ hit)
    | inr miss ↦ let (m, t) = find-some p xs x (rw miss at e) in (Memᴰ.tail m, t)
  ]

-- A predicate that holds of each element, as nested pairs.
module _ {ℓ κ} {A : Type ℓ} where
  abbrev pub All : (A → Type κ) → List A → Type κ
  All P [] = Unit
  All P (x ∷ xs) = P x × All P xs

  pub All-append :
      (P : A → Type κ) (front back : List A) → All P front → All P back → All P (front ++ back)
  All-append P [] back f b = b
  All-append P (a ∷ front) back (first, rest) b = (first, All-append P front back rest b)

  pub All-map : (P Q : A → Type κ) → ((x : A) → P x → Q x) → (xs : List A) → All P xs → All Q xs
  All-map P Q f [] h = tt
  All-map P Q f (x ∷ xs) h = (f x h.0, All-map P Q f xs h.1)

module _ {ℓ κ} {A : Type ℓ} where
  pub All-mem : (P : A → Type κ) (xs : List A) {x : A} → Memᴰ x xs → All P xs → P x
  All-mem P [] m h = elim m [ ]
  All-mem P (y ∷ xs) (Memᴰ.head e) h = subst P (sym e) h.0
  All-mem P (y ∷ xs) (Memᴰ.tail m) h = All-mem P xs m h.1

  pub All-filter-mem :
      (P : A → Type κ) (q : A → Bool) (xs : List A) {x : A}
      → Memᴰ x xs
      → q x ≡ true
      → All P (filter q xs)
      → P x
  All-filter-mem P q [] m t h = elim m [ ]
  All-filter-mem P q (y ∷ xs) (Memᴰ.head e) t h = subst P (sym e) (rw (ap q (sym e) ∙ t) at h).0
  All-filter-mem P q (y ∷ xs) {x} (Memᴰ.tail m) t h = elim (Bool-cases (q y)) [
    | inl hit ↦ All-filter-mem P q xs m t (rw hit at h).1
    | inr miss ↦ All-filter-mem P q xs m t (rw miss at h)
  ]

module _ {ℓ} {A : Type ℓ} where
  pub mem-append_singleton :
      (xs : List A) (y : A) {x : A} → Memᴰ x (xs ++ y ∷ []) → Memᴰ x xs ⊎ (x ≡ y)
  mem-append_singleton [] y (Memᴰ.head e) = inr e
  mem-append_singleton [] y (Memᴰ.tail m) = elim m [ ]
  mem-append_singleton (z ∷ xs) y (Memᴰ.head e) = inl (Memᴰ.head e)
  mem-append_singleton (z ∷ xs) y (Memᴰ.tail m) = elim (mem-append_singleton xs y m) [
    | inl old ↦ inl (Memᴰ.tail old)
    | inr new ↦ inr new
  ]

-- `xs.includes(a)`
abbrev pub includes {ℓ} : {A : Type ℓ} ⦃c : Comparable A⦄ → List A → A → Bool
includes xs a = any (λ x. x == a) xs
