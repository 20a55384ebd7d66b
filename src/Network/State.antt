-- ===== src/Network/State.antt =====
-- packages/operator-core/src/omnidat.ts: the operational state, its numbering and its texts.
use Prim.Native.String.{String, ◌++◌}
use omnidat.Prelude.{
  ℕ, ◌+◌, ◌/◌, ◌%◌, Bool, Option, List, [], ◌∷◌, ◌==◌, if◌then◌else◌, string_eq, ℤ, minus, numeral,
  pad_start, length, find,
}

-- A union of string literals is kept as its text, an amount of money in hundredths, and a packet loss
-- in thousandths.
pub record Verb : Type 0 where
  pub name : String
  pub description : String
  pub inputs : List String
  pub outputs : List String

pub record Service : Type 0 where
  pub slug : String
  pub name : String
  pub x121 : String
  pub owner : String
  pub category : String
  pub status : String
  pub reachable : Bool
  pub verbs : List Verb

pub record Circuit : Type 0 where
  pub x121 : String
  pub service : String
  pub status : String
  pub latency_ms : ℕ
  pub transport : String
  pub packet_loss : ℕ

pub record ProvisioningRequest : Type 0 where
  pub id : String
  pub campsite_name : String
  pub namespace : String
  pub transport : String
  pub assigned_x121 : String
  pub status : String

pub record BillingAccount : Type 0 where
  pub account_id : String
  pub provider : String
  pub type : String
  pub owner : String
  pub status : String
  pub balance : ℤ
  pub currency : String

pub record LedgerEntry : Type 0 where
  pub id : String
  pub account_id : String
  pub entry_kind : String
  pub amount : ℤ
  pub currency : String
  pub memo : String
  pub receipt_id : String

pub record PadConfig : Type 0 where
  pub id : String
  pub x121 : String
  pub transport : String
  pub pad_kind : String
  pub endpoint_label : String
  pub status : String
  pub profile : String

pub record FoodMenuItem : Type 0 where
  pub item_id : String
  pub name : String
  pub price_shady_bucks : ℕ
  pub available : Bool

pub record FoodOrder : Type 0 where
  pub id : String
  pub line_ticket : String
  pub pickup_name : String
  pub item_ids : List String
  pub total : ℕ
  pub currency : String
  pub status : String
  pub estimated_wait_minutes : ℕ
  pub receipt_id : String

pub record PassportStamp : Type 0 where
  pub id : String
  pub passport_id : String
  pub badge_id : String
  pub operator_id : String
  pub evidence : String
  pub stamp_id : String
  pub receipt_id : String
  pub status : String

-- `details` holds the texts of its fields, in their order.
pub record AuditEvent : Type 0 where
  pub id : String
  pub event_type : String
  pub subject_kind : String
  pub subject_id : String
  pub details : List (String × String)

pub record OperationalState : Type 0 where
  pub services : List Service
  pub circuits : List Circuit
  pub provisioning_requests : List ProvisioningRequest
  pub billing_accounts : List BillingAccount
  pub ledger : List LedgerEntry
  pub pads : List PadConfig
  pub food_orders : List FoodOrder
  pub passport_stamps : List PassportStamp
  pub audit_events : List AuditEvent
  pub next_camp_address : ℕ

-- JavaScript's operations on texts: `dashed` replaces each run of characters that are no lower-case
-- letters or digits by a dash and drops the dashes at both ends; `first` is `slice(0, n)`, `last` is
-- `slice(-n)`; `alphanumeric` and `digits` drop the other characters, `capitals` all but capitals and
-- digits; `pad_end` is `padEnd` with zeros; `show` prints a number of hundredths.
pub record Words : Type 0 where
  pub trim : String → String
  pub lower : String → String
  pub upper : String → String
  pub dashed : String → String
  pub first : ℕ → String → String
  pub last : ℕ → String → String
  pub alphanumeric : String → String
  pub capitals : String → String
  pub digits : String → String
  pub pad_end : ℕ → String → String
  pub show : ℤ → String
  pub words : String → List String

-- `amount.toFixed(2)`
pub fixed2 : ℕ → String
fixed2 n = numeral 10 (n / 100) ++ ("." ++ pad_start 2 (numeral 10 (n % 100)))

-- the address with a number
unfoldable pub camp_address : ℕ → String
camp_address n = "31108802" ++ pad_start 4 (numeral 10 n)

-- `nextX121`
unfoldable pub next_x121 : OperationalState → String × OperationalState
next_x121 s =
    (camp_address s.next_camp_address, record s { next_camp_address = s.next_camp_address + 1 })

-- `appendAudit`
unfoldable pub append_audit :
    (event_type subject_kind subject_id : String)
    → List (String × String)
    → OperationalState
    → OperationalState
append_audit event_type subject_kind subject_id details s = record s {
  audit_events =
      (record {
        id = "AUDIT-" ++ pad_start 4 (numeral 10 (length s.audit_events + 1));
        event_type = event_type;
        subject_kind = subject_kind;
        subject_id = subject_id;
        details = details;
      })
      ∷ s.audit_events;
}

pub next_food_ticket : OperationalState → String
next_food_ticket s = "MW-" ++ pad_start 4 (numeral 10 (length s.food_orders + 1))

pub next_passport_stamp_id : OperationalState → String
next_passport_stamp_id s = "STAMP-" ++ pad_start 5 (numeral 10 (length s.passport_stamps + 1))

module _ (js : Words) where
  pub slugify : String → String
  slugify value = js.first 80 (js.dashed (js.lower (js.trim value)))

  pub account_id_for : String → String
  account_id_for campsite_name = "SB-CAMP-" ++ (js.upper (slugify campsite_name) ++ "-001")

-- what `find` gives for an account
abbrev pub account_named : String → List BillingAccount → Option BillingAccount
account_named id accounts = find (λ (a : BillingAccount). a.account_id == id) accounts

abbrev pub service_at : String → List Service → Option Service
service_at x121 services = find (λ (s : Service). s.x121 == x121) services

-- `account.balance -= n` on the object that `find` gives
abbrev pub charge : String → ℕ → List BillingAccount → List BillingAccount
charge id n [] = []
charge id n (a ∷ accounts) =
    if a.account_id == id
    then record a { balance = minus a.balance n } ∷ accounts
    else a ∷ charge id n accounts
