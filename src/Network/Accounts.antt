-- ===== src/Network/Accounts.antt =====
-- packages/operator-core/src/omnidat.ts: what an account owes, and what a charge changes of it.
use omnidat.Prelude.{
  ℕ, zero, suc, ltb, ◌+◌, String, true, false, Option, none, some, List, [], ◌∷◌, ◌++◌, ◌≡◌, refl,
  sym, ap, ◌∙◌, ◌==◌, ==_iff, ne_of_==, ==_refl, if◌then◌else◌, string_eq, Bool-cases, Option-cases,
  inl, inr, arith, find-some, ℤ, pos, minus, minus_nothing, neg_part,
}
use omnidat.Network.State.{BillingAccount, LedgerEntry, account_named, charge}
use omnidat.Network.Provisioning.{with_account, opened_account}

abbrev balance_or : Option BillingAccount → ℤ
balance_or none = pos 25000
balance_or (some a) = a.balance

-- The balance of the account that an operation finds by an id; one that is not there yet will be
-- opened with 250.
abbrev pub due : String → List BillingAccount → ℤ
due x accounts = balance_or (account_named x accounts)

-- what the entries of a ledger charge an account
abbrev pub charged : String → List LedgerEntry → ℕ
charged x [] = 0
charged x (e ∷ entries) = (if e.account_id == x then neg_part e.amount else 0) + charged x entries

pub charged-append :
    (x : String) (front back : List LedgerEntry)
    → charged x (front ++ back) ≡ charged x front + charged x back
charged-append x [] back = ground arith
charged-append x (e ∷ front) back = ground (arith, charged-append x front back)

pub found_id :
    (id : String) (accounts : List BillingAccount) (a : BillingAccount)
    → account_named id accounts ≡ some a
    → a.account_id ≡ id
found_id id accounts a h =
    (==_iff a.account_id id).0
      (find-some (λ (b : BillingAccount). b.account_id == id) accounts a h).1

pub other_name : (a id x : String) → (a == id) ≡ false → (a == x) ≡ true → (id == x) ≡ false
other_name a id x differ same = elim (Bool-cases (id == x)) [
  | inr e ↦ e
  | inl e ↦ absurd (ne_of_== a id differ ((==_iff a x).0 same ∙ sym ((==_iff id x).0 e)))
]

pub same_name : (a id x : String) → (a == id) ≡ true → (a == x) ≡ (id == x)
same_name a id x same = ap (λ y. y == x) ((==_iff a id).0 same)

-- A charge takes its amount from the account that it names, and nothing from any other.
pub due-charge :
    (x id : String) (n : ℕ) (accounts : List BillingAccount) (a : BillingAccount)
    → account_named id accounts ≡ some a
    → due x (charge id n accounts) ≡ minus (due x accounts) (if id == x then n else 0)
due-charge x id n [] a h = cc
due-charge x id n (b ∷ accounts) a h = elim (Bool-cases (b.account_id == id)) [
  | inl own ↦ rw own (elim (Bool-cases (id == x)) [
    | inl same ↦ rw (same_name b.account_id id x own, same) refl
    | inr other ↦ rw (same_name b.account_id id x own, other) (sym (minus_nothing _))
  ])
  | inr not_own ↦ rw not_own (elim (Bool-cases (b.account_id == x)) [
    | inl here ↦
        rw (here, other_name b.account_id id x not_own here) (sym (minus_nothing b.balance))
    | inr there ↦ rw there (due-charge x id n accounts a (rw not_own at h))
  ])
]

opened_last :
    (x id owner : String) (accounts : List BillingAccount)
    → due x (accounts ++ opened_account id owner ∷ []) ≡ due x accounts
opened_last x id owner [] = elim (Bool-cases (id == x)) [
  | inl same ↦ rw same refl
  | inr other ↦ rw other refl
]
opened_last x id owner (b ∷ accounts) = elim (Bool-cases (b.account_id == x)) [
  | inl here ↦ rw here refl
  | inr there ↦ rw there (opened_last x id owner accounts)
]

-- Opening an account changes what no account is due.
pub due-with_account :
    (x id owner : String) (accounts : List BillingAccount)
    → due x (with_account id owner accounts) ≡ due x accounts
unfolding with_account
due-with_account x id owner accounts = elim (Option-cases (account_named id accounts)) [
  | inl absent ↦ rw (with_account, absent) (opened_last x id owner accounts)
  | inr (a, present) ↦ rw (with_account, present) refl
]

named_last :
    (id owner : String) (accounts : List BillingAccount)
    → account_named id accounts ≡ none
    → account_named id (accounts ++ opened_account id owner ∷ []) ≡ some (opened_account id owner)
named_last id owner [] h = rw (==_refl id) refl
named_last id owner (b ∷ accounts) h = elim (Bool-cases (b.account_id == id)) [
  | inl here ↦ cc (rw here at h)
  | inr there ↦ rw there (named_last id owner accounts (rw there at h))
]

-- The account is there once it has been opened.
pub account_named-with_account :
    (id owner : String) (accounts : List BillingAccount)
    → (a : BillingAccount) × (account_named id (with_account id owner accounts) ≡ some a)
unfolding with_account
account_named-with_account id owner accounts = elim (Option-cases (account_named id accounts)) [
  | inl absent ↦
      (opened_account id owner, rw (with_account, absent) (named_last id owner accounts absent))
  | inr (a, present) ↦ (a, rw (with_account, present) present)
]

charge_nothing : (id : String) (accounts : List BillingAccount) → charge id 0 accounts ≡ accounts
charge_nothing id [] = refl
charge_nothing id (b ∷ accounts) = elim (Bool-cases (b.account_id == id)) [
  | inl own ↦ rw own (ap (λ z. record b { balance = z } ∷ accounts) (minus_nothing b.balance))
  | inr other ↦ rw other (ap (λ l. b ∷ l) (charge_nothing id accounts))
]

-- A fee is charged whether or not a fee of nothing is left out.
pub charge_fee :
    (id : String) (n : ℕ) (accounts : List BillingAccount)
    → (if ltb 0 n then charge id n accounts else accounts) ≡ charge id n accounts
charge_fee id zero accounts = sym (charge_nothing id accounts)
charge_fee id (suc n) accounts = elim (Bool-cases (ltb 0 (suc n))) [
  | inl some_fee ↦ rw some_fee refl
  | inr none_left ↦ absurd (ground (arith, none_left))
]
