-- ===== src/Network/Effects.antt =====
-- packages/operator-core/src/omnidat.ts: what each operation does to the ledger, the addresses and the
-- audit.
use Prim.Native.String.{◌++◌ as text_append}
use omnidat.Prelude.{
  ℕ, ◌+◌, ◌≤◌, String, true, false, some, List, [], ◌∷◌, ◌++◌, ◌≡◌, ◌⊎◌, refl, sym, ap, ◌∙◌, ◌==◌,
  if◌then◌else◌, string_eq, Bool-cases, inl, inr, arith, minus, minus_nothing, neg, neg_part-neg,
  length, numeral, pad_start,
}
use omnidat.Network.State.{
  BillingAccount, LedgerEntry, ProvisioningRequest, AuditEvent, OperationalState, camp_address,
  account_named, charge,
}
use omnidat.Network.Acts.{Done}
use omnidat.Network.Accounts.{due, charged, due-charge}

-- The entries that an operation adds to the ledger are what it takes from the accounts.
pub record Booked (s s1 : OperationalState) : Type 0 where
  pub entries : List LedgerEntry
  pub added : s1.ledger ≡ entries ++ s.ledger
  pub taken :
      (x : String)
      → due x s1.billing_accounts ≡ minus (due x s.billing_accounts) (charged x entries)

-- One address is given out to a request, or none.
abbrev pub Allotted : OperationalState → OperationalState → Type 0
Allotted s s1 =
    ((s1.provisioning_requests ≡ s.provisioning_requests)
      × (s.next_camp_address ≤ s1.next_camp_address))
    ⊎ ((r : ProvisioningRequest) × ((s1.provisioning_requests ≡ r ∷ s.provisioning_requests)
          × ((r.assigned_x121 ≡ camp_address s.next_camp_address)
              × (s1.next_camp_address ≡ s.next_camp_address + 1))))

-- One event is added to the audit, under the next number.
abbrev pub Logged : OperationalState → OperationalState → Type 0
Logged s s1 =
    (e : AuditEvent) × ((s1.audit_events ≡ e ∷ s.audit_events)
      × (e.id ≡ text_append "AUDIT-" (pad_start 4 (numeral 10 (length s.audit_events + 1)))))

pub record Granted (s s1 : OperationalState) : Type 0 where
  pub booked : Booked s s1
  pub allotted : Allotted s s1
  pub logged : Logged s s1

-- An operation throws and changes nothing, or returns and has these effects.
abbrev pub Effect : OperationalState → Done → Type 0
Effect s d = (d ≡ (false, s)) ⊎ ((d.0 ≡ true) × Granted s d.1)

-- an operation that books nothing
pub unbooked :
    (s s1 : OperationalState)
    → s1.ledger ≡ s.ledger
    → s1.billing_accounts ≡ s.billing_accounts
    → Booked s s1
unbooked s s1 l a = record {
  entries = [];
  added = l;
  taken = λ x. ap (due x) a ∙ sym (minus_nothing (due x s.billing_accounts));
}

-- one entry, for an amount that it charges
charged_once :
    (x id : String) (e : LedgerEntry) (n : ℕ)
    → e.account_id ≡ id
    → e.amount ≡ neg n
    → (if id == x then n else 0) ≡ charged x (e ∷ [])
charged_once x id e n i a = elim (Bool-cases (id == x)) [
  | inl own ↦ rw (i, a, own, neg_part-neg n) (omega arith)
  | inr other ↦ rw (i, other) refl
]

-- One entry that charges an account which is found.
pub charge-Booked :
    (s s1 : OperationalState) (id : String) (n : ℕ) (e : LedgerEntry)
    (accounts : List BillingAccount) (a : BillingAccount)
    → account_named id accounts ≡ some a
    → ((x : String) → due x accounts ≡ due x s.billing_accounts)
    → s1.billing_accounts ≡ charge id n accounts
    → s1.ledger ≡ e ∷ s.ledger
    → e.account_id ≡ id
    → e.amount ≡ neg n
    → Booked s s1
charge-Booked s s1 id n e accounts a found same charged_here added i amount = record {
  entries = e ∷ [];
  added = added;
  taken = λ x.
      ap (due x) charged_here
      ∙ due-charge x id n accounts a found
      ∙ rw (same x, charged_once x id e n i amount) refl;
}
