-- ===== src/Network/Books.antt =====
-- packages/operator-core/src/omnidat.ts: what holds after any sequence of operations.
use mathlib.Core.List.{append_assoc}
use omnidat.Prelude.{
  ℕ, ◌+◌, ◌<◌, String, Bool, List, [], ◌∷◌, ◌++◌, ◌≡◌, ◌≢◌, refl, sym, ap, subst, ◌∙◌, inl, inr,
  arith, minus, minus-minus, minus_nothing, All, All-map, pad_start_injective,
}
use omnidat.Network.State.{ProvisioningRequest, OperationalState, Words, camp_address}
use omnidat.Network.Acts.{
  Act, provision, configure, set_up_atm, sell, order_food, stamp, command, act, act_all,
}
use omnidat.Network.Accounts.{due, charged, charged-append}
use omnidat.Network.Effects.{Booked, Allotted, Effect}
use omnidat.Network.Outcomes.{
  provision-Effect, configure-Effect, set_up_atm-Effect, sell-Effect, order_food-Effect,
  stamp-Effect, command-Effect,
}

-- Each request has an address given out before the next one, and no two have the same.
abbrev pub IsGivenOut : ℕ → ProvisioningRequest → Type 0
IsGivenOut next r = (n : ℕ) × ((r.assigned_x121 ≡ camp_address n) × (n < next))

abbrev pub Distinct : List ProvisioningRequest → Type 0
Distinct [] = Unit
Distinct (r ∷ requests) =
    All (λ (q : ProvisioningRequest). q.assigned_x121 ≢ r.assigned_x121) requests
    × Distinct requests

pub record IsAllotted (s : OperationalState) : Type 0 where
  pub given_out : All (IsGivenOut s.next_camp_address) s.provisioning_requests
  pub distinct : Distinct s.provisioning_requests

camp_address_injective : (m n : ℕ) → camp_address m ≡ camp_address n → m ≡ n
unfolding camp_address
camp_address_injective m n h = pad_start_injective 4 "31108802" m n h

add_comm : (m n : ℕ) → m + n ≡ n + m
add_comm m n = omega arith

before_next : (s : OperationalState) (n : ℕ) → n ≡ s.next_camp_address → n < s.next_camp_address → ⊥
before_next s n same before = omega arith

module _ (js : Words) (starts_error has_unknown : String → Bool) where
  -- An operation throws and leaves the state as it was; or it returns, and takes from the accounts
  -- what its ledger entries charge them, gives out the next address to a request or none, and adds
  -- one event to the audit under the next number.
  pub act-Effect : (a : Act) (s : OperationalState) → Effect s (act js starts_error has_unknown a s)
  act-Effect (provision i) s = provision-Effect js starts_error has_unknown i s
  act-Effect (configure i) s = configure-Effect js starts_error has_unknown i s
  act-Effect (set_up_atm i) s = set_up_atm-Effect js starts_error has_unknown i s
  act-Effect (sell i) s = sell-Effect js starts_error has_unknown i s
  act-Effect (order_food i) s = order_food-Effect js starts_error has_unknown i s
  act-Effect (stamp i) s = stamp-Effect js starts_error has_unknown i s
  act-Effect (command i) s = command-Effect js starts_error has_unknown i s

  refl-Booked : (s : OperationalState) → Booked s s
  refl-Booked s = record {
    entries = [];
    added = refl;
    taken = λ x. sym (minus_nothing (due x s.billing_accounts));
  }

  trans-Booked : (s s1 s2 : OperationalState) → Booked s s1 → Booked s1 s2 → Booked s s2
  trans-Booked s s1 s2 first second = record {
    entries = second.entries ++ first.entries;
    added =
        second.added
        ∙ ap (λ l. second.entries ++ l) first.added
        ∙ sym (append_assoc second.entries first.entries s.ledger);
    taken = λ x.
        second.taken x
        ∙ ap (λ z. minus z (charged x second.entries)) (first.taken x)
        ∙ minus-minus (due x s.billing_accounts) (charged x first.entries)
            (charged x second.entries)
        ∙ ap (minus (due x s.billing_accounts)) (
            add_comm (charged x first.entries) (charged x second.entries)
            ∙ sym (charged-append x second.entries first.entries));
  }

  act-Booked : (a : Act) (s : OperationalState) → Booked s (act js starts_error has_unknown a s).1
  act-Booked a s = elim (act-Effect a s) [
    | inl refused ↦ subst (λ d. Booked s d.1) (sym refused) (refl-Booked s)
    | inr (returned, granted) ↦ granted.booked
  ]

  act_all-Booked :
      (acts : List Act) (s : OperationalState)
      → Booked s (act_all js starts_error has_unknown acts s)
  unfolding act_all
  act_all-Booked [] s = refl-Booked s
  act_all-Booked (a ∷ acts) s =
      let s1 = (act js starts_error has_unknown a s).1 in
      trans-Booked s s1 _ (act-Booked a s) (act_all-Booked acts s1)

  -- The books balance after any sequence of operations, thrown ones among them: what an account has
  -- lost is what the ledger has charged it since.
  pub act_all-conserves :
      (acts : List Act) (s : OperationalState) (x : String)
      → let s1 = act_all js starts_error has_unknown acts s in
        minus (due x s.billing_accounts) (charged x s1.ledger)
        ≡ minus (due x s1.billing_accounts) (charged x s.ledger)
  act_all-conserves acts s x =
      let b = act_all-Booked acts s in
      ap (λ l. minus (due x s.billing_accounts) (charged x l)) b.added
      ∙ ap (minus (due x s.billing_accounts)) (charged-append x b.entries s.ledger)
      ∙ sym (minus-minus (due x s.billing_accounts) (charged x b.entries) (charged x s.ledger))
      ∙ ap (λ z. minus z (charged x s.ledger)) (sym (b.taken x))

  Allotted-IsAllotted : (s s1 : OperationalState) → Allotted s s1 → IsAllotted s → IsAllotted s1
  Allotted-IsAllotted s s1 (inl (same, later)) h = record {
    given_out = subst (All (IsGivenOut s1.next_camp_address)) (sym same) (
        All-map (IsGivenOut s.next_camp_address) (IsGivenOut s1.next_camp_address)
          (λ r (n, (address, before)). (n, (address, omega arith))) s.provisioning_requests
          h.given_out);
    distinct = subst Distinct (sym same) h.distinct;
  }
  Allotted-IsAllotted s s1 (inr (r, (added, (address, next)))) h = record {
    given_out = subst (All (IsGivenOut s1.next_camp_address)) (sym added) (
      (s.next_camp_address, (address, omega arith)),
      All-map (IsGivenOut s.next_camp_address) (IsGivenOut s1.next_camp_address)
          (λ q (n, (given, before)). (n, (given, omega arith))) s.provisioning_requests h.given_out,
    );
    distinct = subst Distinct (sym added) (
      All-map (IsGivenOut s.next_camp_address)
          (λ (q : ProvisioningRequest). q.assigned_x121 ≢ r.assigned_x121)
          (λ q (n, (given, before)) same. absurd (
            before_next s n
              (camp_address_injective n s.next_camp_address (sym given ∙ same ∙ address)) before))
          s.provisioning_requests h.given_out,
      h.distinct,
    );
  }

  act-IsAllotted :
      (a : Act) (s : OperationalState)
      → IsAllotted s
      → IsAllotted (act js starts_error has_unknown a s).1
  act-IsAllotted a s h = elim (act-Effect a s) [
    | inl refused ↦ subst (λ d. IsAllotted d.1) (sym refused) h
    | inr (returned, granted) ↦ Allotted-IsAllotted s _ granted.allotted h
  ]

  -- No two requests that any sequence of operations provisions have the same X.121 address.
  pub act_all-IsAllotted :
      (acts : List Act) (s : OperationalState)
      → IsAllotted s
      → IsAllotted (act_all js starts_error has_unknown acts s)
  unfolding act_all
  act_all-IsAllotted [] s h = h
  act_all-IsAllotted (a ∷ acts) s h = act_all-IsAllotted acts _ (act-IsAllotted a s h)
