-- ===== src/Lifecycle/Offers.antt =====
-- packages/api/src/router/omnidat-persistence.ts: the next status of a request, and the legal ones.
use omnidat.Prelude.{
  ℕ, zero, suc, ◌+◌, String, true, false, Option, none, some, List, [], ◌∷◌, ◌≡◌, refl, subst, ◌==◌,
  ==_iff, ltb, nat_eq, string_eq, Bool-cases, Option-cases, inl, inr, arith, ◌↔◌,
}
use omnidat.Lifecycle.{
  provisioning_states, index_of, state_at, is_terminal, follows, is_legal_provisioning_transition,
  next_at, next_provisioning_status,
}
use omnidat.Lifecycle.Advances.{index_of-lt}

pub state_at-index_of :
    (xs : List String) (s : String) (i : ℕ) → index_of xs s ≡ some i → state_at xs i ≡ some s
unfolding index_of state_at
state_at-index_of [] s i h = cc
state_at-index_of (x ∷ xs) s i h = elim (Bool-cases (x == s)) [
  | inl here ↦ ground (arith, rw here at h, ==_iff x s)
  | inr there ↦ elim (Option-cases (index_of xs s)) [
    | inl absent ↦ cc (rw (there, absent) at h)
    | inr (j, found) ↦ ground (arith, rw (there, found) at h, state_at-index_of xs s j found)
  ]
]

-- what stands after a place of the list is legal to go to, and ends nothing
abbrev IsNextOf : Option ℕ → String → Type 0
IsNextOf place to =
    (follows place (index_of provisioning_states to) ≡ true) × (is_terminal to ≡ false)

pub moved : (Holds : String → Type 0) (a b : String) → Holds a → some a ≡ some b → Holds b
moved Holds a b held h = subst Holds (some_same a b h) held
  where
    some_same : (a b : String) → some a ≡ some b → a ≡ b
    some_same a b e = ground arith

next_at-IsNextOf : (place : Option ℕ) (to : String) → next_at place ≡ some to → IsNextOf place to
unfolding state_at index_of is_terminal
next_at-IsNextOf none to h = cc
next_at-IsNextOf (some zero) to h = moved (IsNextOf (some 0)) "reviewed" to (refl, refl) h
next_at-IsNextOf (some (suc zero)) to h = moved (IsNextOf (some 1)) "approved" to (refl, refl) h
next_at-IsNextOf (some (suc (suc zero))) to h =
    moved (IsNextOf (some 2)) "assigned" to (refl, refl) h
next_at-IsNextOf (some (suc (suc (suc zero)))) to h =
    moved (IsNextOf (some 3)) "installed" to (refl, refl) h
next_at-IsNextOf (some (suc (suc (suc (suc zero))))) to h =
    moved (IsNextOf (some 4)) "verified" to (refl, refl) h
next_at-IsNextOf (some (suc (suc (suc (suc (suc zero)))))) to h =
    moved (IsNextOf (some 5)) "active" to (refl, refl) h
next_at-IsNextOf (some (suc (suc (suc (suc (suc (suc i))))))) to h = cc (rw past at h)
  where
    past : ltb (suc (suc (suc (suc (suc (suc i)))))) 6 ≡ false
    past = ground arith

follows-next_at :
    (place reached : Option ℕ) (to : String)
    → index_of provisioning_states to ≡ reached
    → follows place reached ≡ true
    → next_at place ≡ some to
follows-next_at none reached to p h = cc
follows-next_at (some i) none to p h = cc
follows-next_at (some i) (some j) to p h = rw under (
    state_at-index_of provisioning_states to (i + 1)
      (subst (λ r. index_of provisioning_states to ≡ some r) at_next p))
  where
    at_next : j ≡ i + 1
    at_next = (==_iff j (i + 1)).0 h

    under : ltb i 6 ≡ true
    under = ground (arith, index_of-lt provisioning_states to j p)

next_provisioning_status-legal :
    (from to : String)
    → next_provisioning_status from ≡ some to
    → (is_legal_provisioning_transition from to ≡ true) × (is_terminal to ≡ false)
unfolding next_provisioning_status is_legal_provisioning_transition
next_provisioning_status-legal from to h =
    let next = next_at-IsNextOf (index_of provisioning_states from) to h in
    (rw (next.1) (next.0), next.1)

legal-next_provisioning_status :
    (from to : String)
    → is_legal_provisioning_transition from to ≡ true
    → is_terminal to ≡ false
    → next_provisioning_status from ≡ some to
unfolding next_provisioning_status is_legal_provisioning_transition
legal-next_provisioning_status from to legal lasting =
    follows-next_at (index_of provisioning_states from) (index_of provisioning_states to) to refl
      (rw lasting at legal)

-- What the lifecycle offers as the next status of a request is what is both a legal transition and no
-- end: it offers nothing illegal, and leaves out nothing legal but the two ends.
pub next_provisioning_status-some_iff :
    (from to : String)
    → (next_provisioning_status from ≡ some to)
      ↔ ((is_legal_provisioning_transition from to ≡ true) × (is_terminal to ≡ false))
next_provisioning_status-some_iff from to =
    (next_provisioning_status-legal from to, λ p. legal-next_provisioning_status from to p.0 p.1)
