-- ===== src/Network/Provisioning.antt =====
-- packages/operator-core/src/omnidat.ts: the provisioning of campsites, PADs and ATM terminals.
use Prim.Native.String.{String, ◌++◌}
use omnidat.Prelude.{
  ℕ, true, Option, none, some, List, [], ◌∷◌, ◌==◌, if◌then◌else◌, string_eq, pos, neg, join,
}
use mathlib.Core.List.{◌++◌ as list_append}
use omnidat.Network.State.{
  Verb, Service, Circuit, ProvisioningRequest, BillingAccount, LedgerEntry, OperationalState, Words,
  next_x121, append_audit, slugify, account_id_for, account_named, charge,
}

-- what an operation gives, or the message of the error that it throws
pub data Result (A : Type 0) : Type 0 where
  value : A → Result A
  thrown : String → Result A

abbrev pub verb : (name description : String) → (inputs outputs : List String) → Verb
verb name description inputs outputs = record {
  name = name;
  description = description;
  inputs = inputs;
  outputs = outputs;
}

abbrev campsite_verbs : List Verb
campsite_verbs =
    verb "STATUS" "Return campsite app status." ("x121" ∷ [])
      ("status" ∷ "transport" ∷ "owner" ∷ [])
    ∷ verb "MESSAGE.SEND" "Submit a campsite application message." ("body" ∷ "operatorId" ∷ [])
        ("messageId" ∷ "receiptId" ∷ [])
    ∷ []

pub record CampsiteInput : Type 0 where
  pub campsite_name : String
  pub namespace : String
  pub contact : String
  pub app_name : String
  pub app_kind : String
  pub transport : String

pub record Provisioned : Type 0 where
  pub assignment : ProvisioningRequest
  pub service : Service
  pub ledger_entry : LedgerEntry
  pub transcript : String

abbrev pub opened_account : String → String → BillingAccount
opened_account id owner = record {
  account_id = id;
  provider = "ShadyBucks";
  type = "camp-operating";
  owner = owner;
  status = "linked-demo";
  balance = pos 25000;
  currency = "SHDY";
}

abbrev or_opened :
    Option BillingAccount → String → String → List BillingAccount → List BillingAccount
or_opened (some a) id owner accounts = accounts
or_opened none id owner accounts = list_append accounts (opened_account id owner ∷ [])

-- the accounts with that of a campsite, opened with 250 if it is not there
unfoldable pub with_account : String → String → List BillingAccount → List BillingAccount
with_account id owner accounts = or_opened (account_named id accounts) id owner accounts

abbrev pub service_with : (slug name x121 owner category : String) → List Verb → Service
service_with slug name x121 owner category verbs = record {
  slug = slug;
  name = name;
  x121 = x121;
  owner = owner;
  category = category;
  status = "up";
  reachable = true;
  verbs = verbs;
}

abbrev pub circuit_with : (x121 service : String) → ℕ → String → Circuit
circuit_with x121 service latency_ms transport = record {
  x121 = x121;
  service = service;
  status = "up";
  latency_ms = latency_ms;
  transport = transport;
  packet_loss = 0;
}

module _ (js : Words) where
  abbrev namespace_of : String → String
  namespace_of raw = let n = js.lower (js.trim raw) in if n == "" then "camp" else n

  abbrev request_for : CampsiteInput → String → ProvisioningRequest
  request_for input x121 = record {
    id = "PV-" ++ js.last 6 x121;
    campsite_name = js.trim input.campsite_name;
    namespace = namespace_of input.namespace;
    transport = js.trim input.transport;
    assigned_x121 = x121;
    status = "verified";
  }

  abbrev provisioning_fee : ProvisioningRequest → String → LedgerEntry
  provisioning_fee request account_id = record {
    id = "LEDGER-" ++ request.id;
    account_id = account_id;
    entry_kind = "provisioning-fee";
    amount = neg 2500;
    currency = "SHDY";
    memo = "X.121 provisioning fee for " ++ request.campsite_name;
    receipt_id = "RCPT-" ++ request.id;
  }

  unfoldable pub provision_campsite_service :
      CampsiteInput → OperationalState → Provisioned × OperationalState
  provision_campsite_service input s =
      let (x121, s1) = next_x121 s in
      let request = request_for input x121 in
      let app_name = js.trim input.app_name in
      let slug = slugify js request.campsite_name ++ ("-" ++ slugify js app_name) in
      let account_id = account_id_for js request.campsite_name in
      let service =
        service_with slug app_name x121 request.campsite_name "transport" campsite_verbs in
      let entry = provisioning_fee request account_id in
      (
        record {
          assignment = request;
          service = service;
          ledger_entry = entry;
          transcript = join "\n" (
              "OMNIDAT PACKET CLEARING OFFICE"
              ∷ ("ASSIGN " ++ x121)
              ∷ ("NAMESPACE " ++ request.namespace)
              ∷ ("SERVICE " ++ js.upper app_name)
              ∷ ("BILL " ++ (account_id ++ " -25 SHDY"))
              ∷ "STATUS VERIFIED"
              ∷ []);
        },
        append_audit "provisioning.verified" "x121" x121
            (("campsiteName", request.campsite_name)
              ∷ ("namespace", request.namespace)
              ∷ ("transport", request.transport)
              ∷ [])
            (record s1 {
              billing_accounts =
                  charge account_id 2500
                    (with_account account_id request.campsite_name s1.billing_accounts);
              provisioning_requests = request ∷ s1.provisioning_requests;
              services = list_append s1.services (service ∷ []);
              circuits = list_append s1.circuits (
                  circuit_with x121 app_name (if input.transport == "xot" then 38 else 96)
                    input.transport
                  ∷ []);
              ledger = entry ∷ s1.ledger;
            }),
      )
