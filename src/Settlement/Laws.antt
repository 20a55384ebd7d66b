-- ===== src/Settlement/Laws.antt =====
-- Which transactions a settlement counts, and that they account for the whole batch.
use mathlib.Core.Path.{fun_ext}
use omnidat.Prelude.{
  ℕ, ◌+◌, String, Bool, not, List, [], ◌∷◌, ◌++◌, ◌≡◌, refl, sym, ap, ◌∙◌, arith, ◌==◌, ◌&&◌, ◌||◌,
  length, filter, any, includes, sub_ℕ, string_eq, eq_iff, Bool-cases, inl, inr, ◌⊎◌, pos_part,
  neg_part,
}
use omnidat.Settlement.{
  Kind, sale, refund, void, is_void, PosTransaction, set_of, void_references, live, total, sales_of,
  refunds_of, build_settlement_report,
}

-- Some transaction of the batch voids the reference.
abbrev pub is_voided : List PosTransaction → String → Bool
is_voided transactions reference =
    any (λ (v : PosTransaction). is_void v.kind && (v.reference == reference)) transactions

includes-set_of : (rs : List String) (a : String) → includes (set_of rs) a ≡ includes rs a
unfolding set_of
includes-set_of [] a = refl
includes-set_of (r ∷ rs) a =
    let ih = includes-set_of rs a in
    elim (Bool-cases (includes (set_of rs) r)) [
      | inl seen ↦ rw seen (elim (Bool-cases (r == a)) [
        | inl here ↦
            let same : r ≡ a = (eq_iff r a).0 here in
            rw here (ap (includes (set_of rs)) (sym same) ∙ seen)
        | inr there ↦ rw there ih
      ])
      | inr fresh ↦ rw fresh (ap (λ b. (r == a) || b) ih)
    ]

includes-void_references :
    (ts : List PosTransaction) (a : String) → includes (void_references ts) a ≡ is_voided ts a
unfolding void_references
includes-void_references [] a = refl
includes-void_references (t ∷ ts) a =
    let ih = includes-void_references ts a in
    elim (Bool-cases (is_void t.kind)) [
      | inl voids ↦ rw voids (ap (λ b. (t.reference == a) || b) ih)
      | inr counts ↦ rw counts ih
    ]

abbrev counts_in : List PosTransaction → PosTransaction → Bool
counts_in batch t = not (is_void t.kind) && not (is_voided batch t.reference)

live_lem : (ts : List PosTransaction) → live ts ≡ filter (counts_in ts) ts
unfolding live
live_lem ts =
    ap (λ p. filter p ts)
      (fun_ext (λ (t : PosTransaction).
        ap (λ b. not (is_void t.kind) && not b)
          (includes-set_of (void_references ts) t.reference
            ∙ includes-void_references ts t.reference)))

any-append :
    {A : Type 0} (p : A → Bool) (xs ys : List A) → any p (xs ++ ys) ≡ (any p xs || any p ys)
any-append p [] ys = refl
any-append p (x ∷ xs) ys = ground (arith, any-append p xs ys)

is_voided-move :
    (xs ys : List PosTransaction) (v : PosTransaction) (a : String)
    → is_voided (xs ++ v ∷ ys) a ≡ is_voided (v ∷ xs ++ ys) a
is_voided-move xs ys v a =
    let p = λ (t : PosTransaction). is_void t.kind && (t.reference == a) in
    any-append p xs (v ∷ ys) ∙ (ground (arith, any-append p xs ys))

filter-void :
    (batch xs ys : List PosTransaction) (v : PosTransaction)
    → v.kind ≡ void
    → filter (counts_in batch) (xs ++ v ∷ ys) ≡ filter (counts_in batch) (xs ++ ys)
filter-void batch [] ys v h = rw h refl
filter-void batch (x ∷ xs) ys v h = elim (Bool-cases (counts_in batch x)) [
  | inl counts ↦ rw counts (ap (λ zs. x ∷ zs) (filter-void batch xs ys v h))
  | inr void_or_voided ↦ rw void_or_voided (filter-void batch xs ys v h)
]

-- Where a void stands in the batch does not matter: it takes out the sales and refunds of its
-- reference that come after it as well as those before it.
pub live-void_anywhere :
    (xs ys : List PosTransaction) (v : PosTransaction)
    → v.kind ≡ void
    → live (xs ++ v ∷ ys) ≡ live (v ∷ xs ++ ys)
live-void_anywhere xs ys v h =
    live_lem (xs ++ v ∷ ys)
    ∙ ap (λ p. filter p (xs ++ v ∷ ys))
        (fun_ext (λ (t : PosTransaction).
          ap (λ b. not (is_void t.kind) && not b) (is_voided-move xs ys v t.reference)))
    ∙ filter-void (v ∷ xs ++ ys) xs ys v h
    ∙ sym (filter-void (v ∷ xs ++ ys) [] (xs ++ ys) v h)
    ∙ sym (live_lem (v ∷ xs ++ ys))

-- the transactions that are not sales or refunds that count
abbrev pub dead : List PosTransaction → List PosTransaction
dead ts = filter (λ (t : PosTransaction). is_void t.kind || is_voided ts t.reference) ts

Kind-cases : (k : Kind) → (k ≡ sale) ⊎ (k ≡ refund) ⊎ (k ≡ void)
Kind-cases sale = inl refl
Kind-cases refund = inr (inl refl)
Kind-cases void = inr (inr refl)

split_counts :
    (batch ts : List PosTransaction)
    → length (sales_of (filter (counts_in batch) ts))
        + length (refunds_of (filter (counts_in batch) ts))
        + length (filter (λ (t : PosTransaction). is_void t.kind || is_voided batch t.reference) ts)
      ≡ length ts
split_counts batch [] = omega arith
split_counts batch (t ∷ ts) =
    let ih = split_counts batch ts in
    elim (Bool-cases (is_voided batch t.reference)) [
      | inl voided ↦ elim (Kind-cases t.kind) [
        | inl k ↦ rw k (rw voided (omega (arith, ih)))
        | inr (inl k) ↦ rw k (rw voided (omega (arith, ih)))
        | inr (inr k) ↦ rw k (omega (arith, ih))
      ]
      | inr kept ↦ elim (Kind-cases t.kind) [
        | inl k ↦ rw k (rw kept (omega (arith, ih)))
        | inr (inl k) ↦ rw k (rw kept (omega (arith, ih)))
        | inr (inr k) ↦ rw k (omega (arith, ih))
      ]
    ]

-- The sales and the refunds counted, with the voids and the transactions they void, are the whole
-- batch; and a net below zero is reported as such: sales are refunds plus the net.
pub build_settlement_report-accounts :
    (terminal_id batch_id : String) (ts : List PosTransaction)
    → let r = build_settlement_report terminal_id batch_id ts in
      (r.sale_count + r.refund_count + length (dead ts) ≡ r.transaction_count)
      × (r.gross_sales + neg_part r.net ≡ r.refunds + pos_part r.net)
unfolding build_settlement_report
build_settlement_report-accounts terminal_id batch_id ts = (
  rw live_lem (split_counts ts ts),
  balance (total (sales_of (live ts))) (total (refunds_of (live ts))),
)
  where
    balance : (a b : ℕ) → a + neg_part (sub_ℕ a b) ≡ b + pos_part (sub_ℕ a b)
    balance a b = ground arith
