-- ===== src/Network/Devices.antt =====
-- packages/operator-core/src/omnidat.ts: the configuration of PADs and the set-up of ATM terminals.
use Prim.Native.String.{String, ◌++◌}
use omnidat.Prelude.{
  Option, none, some, List, [], ◌∷◌, ◌==◌, if◌then◌else◌, string_eq, neg, join, find,
}
use mathlib.Core.List.{◌++◌ as list_append}
use omnidat.Network.State.{
  Verb, Service, Circuit, BillingAccount, LedgerEntry, PadConfig, OperationalState, Words,
  next_x121, append_audit, slugify, account_named, service_at, charge,
}
use omnidat.Network.Provisioning.{Result, verb, value, thrown, service_with, circuit_with}

abbrev pub atm_verbs : List Verb
atm_verbs =
    verb "BALANCE" "Return settlement account balance for this ATM terminal."
      ("omnibucksAccountId" ∷ []) ("balance" ∷ "currency" ∷ [])
    ∷ verb "WITHDRAW" "Authorize an OmniBucks cash-out operation."
        ("omnibucksAccountId" ∷ "amount" ∷ []) ("authorizationCode" ∷ "receiptId" ∷ [])
    ∷ verb "DEPOSIT" "Record an operator cash-in operation." ("omnibucksAccountId" ∷ "amount" ∷ [])
        ("receiptId" ∷ "newBalance" ∷ [])
    ∷ []

pub record PadInput : Type 0 where
  pub x121 : String
  pub transport : String
  pub pad_kind : String
  pub endpoint_label : String

pub record AtmInput : Type 0 where
  pub terminal_id : String
  pub settlement_account_id : String
  pub terminal_x121 : Option String
  pub location_label : String

pub record AtmTerminal : Type 0 where
  pub terminal_id : String
  pub terminal_x121 : String
  pub location_label : String
  pub activation_code : String
  pub receipt_id : String

-- `Object.assign` on the pad that `find` gives
abbrev pub assign_pad : PadConfig → List PadConfig → List PadConfig
assign_pad new [] = []
assign_pad new (p ∷ pads) = if p.x121 == new.x121 then new ∷ pads else p ∷ assign_pad new pads

abbrev pub put_pad : Option PadConfig → PadConfig → List PadConfig → List PadConfig
put_pad (some existing) new pads = assign_pad new pads
put_pad none new pads = new ∷ pads

abbrev pub pad_at : String → List PadConfig → Option PadConfig
pad_at x121 pads = find (λ (p : PadConfig). p.x121 == x121) pads

-- the circuit that `find` gives, brought up
abbrev pub bring_up : PadInput → List Circuit → List Circuit
bring_up input [] = []
bring_up input (c ∷ circuits) =
    if c.x121 == input.x121
    then record c {
      transport = input.transport;
      status = "up";
      latency_ms = if input.pad_kind == "xot-terminal" then 38 else c.latency_ms;
      packet_loss = 0;
    }
      ∷ circuits
    else c ∷ bring_up input circuits

module _ (js : Words) where
  pub pad_profile : PadInput → String
  pad_profile input =
      if input.pad_kind == "xot-terminal"
      then join "\n" (
          "XOT HOST omnidat.cc"
          ∷ "XOT PORT 1998"
          ∷ ("XOT CALLING " ++ input.x121)
          ∷ "PAD SET WINDOW 2"
          ∷ "PAD SET PACKET-SIZE 128"
          ∷ "PAD SET ECHO LOCAL"
          ∷ "PAD SET CR-PAD 1"
          ∷ [])
      else join "\n" (
          ("PAD SET TRANSPORT " ++ js.upper input.transport)
          ∷ ("PAD SET X121 " ++ input.x121)
          ∷ "PAD SET WINDOW 2"
          ∷ "PAD SET ECHO LOCAL"
          ∷ [])

  abbrev pad_id : PadInput → Option PadConfig → String
  pad_id input (some existing) = existing.id
  pad_id input none = "PAD-" ++ js.last 6 input.x121

  abbrev pub pad_for : PadInput → Option PadConfig → PadConfig
  pad_for input existing = record {
    id = pad_id input existing;
    x121 = input.x121;
    transport = input.transport;
    pad_kind = input.pad_kind;
    endpoint_label = js.trim input.endpoint_label;
    status = "configured";
    profile = pad_profile input;
  }

  abbrev configured :
      Option Service → PadInput → OperationalState → Result PadConfig × OperationalState
  configured none input s = (thrown ("Unknown X.121 address: " ++ input.x121), s)
  configured (some service) input s =
      let existing = pad_at input.x121 s.pads in
      let pad = pad_for input existing in
      (
        value pad,
        append_audit "pad.configured" "x121" input.x121
            (("transport", input.transport) ∷ ("padKind", input.pad_kind) ∷ [])
            (record s { pads = put_pad existing pad s.pads; circuits = bring_up input s.circuits }),
      )

  unfoldable pub configure_pad : PadInput → OperationalState → Result PadConfig × OperationalState
  configure_pad input s = configured (service_at input.x121 s.services) input s

  -- `input.terminalX121?.trim() || nextX121()`
  abbrev pub own_or_next : String → OperationalState → String × OperationalState
  own_or_next x121 s = if x121 == "" then next_x121 s else (x121, s)

  abbrev pub trimmed : Option String → String
  trimmed none = ""
  trimmed (some x121) = js.trim x121

  unfoldable pub terminal_address : AtmInput → OperationalState → String × OperationalState
  terminal_address input s = own_or_next (trimmed input.terminal_x121) s

  abbrev pub activation_fee : AtmInput → String → String → LedgerEntry
  activation_fee input account_id x121 = record {
    id = "LEDGER-ATM-" ++ js.upper (slugify js input.terminal_id);
    account_id = account_id;
    entry_kind = "atm-activation";
    amount = neg 1000;
    currency = "OMNI";
    memo = "ATM activation for " ++ input.terminal_id;
    receipt_id = "RCPT-ATM-" ++ js.last 6 x121;
  }

  -- the terminal at an address, settled by an account
  abbrev set_up :
      BillingAccount → AtmInput → String × OperationalState → Result AtmTerminal × OperationalState
  set_up account input (x121, s) =
      let entry = activation_fee input account.account_id x121 in
      (
        value (record {
          terminal_id = input.terminal_id;
          terminal_x121 = x121;
          location_label = input.location_label;
          activation_code = "ATM-" ++ (js.last 6 x121 ++ "-READY");
          receipt_id = entry.receipt_id;
        }),
        append_audit "atm.activated" "x121" x121
            (("terminalId", input.terminal_id) ∷ ("locationLabel", input.location_label) ∷ [])
            (record s {
              billing_accounts = charge account.account_id 1000 s.billing_accounts;
              ledger = entry ∷ s.ledger;
              services = list_append s.services (
                  service_with ("omnibucks-atm-" ++ slugify js input.terminal_id)
                    ("OmniBucks ATM " ++ input.terminal_id) x121 account.owner "billing" atm_verbs
                  ∷ []);
              circuits =
                  list_append s.circuits
                    (circuit_with x121 ("ATM " ++ input.terminal_id) 54 "xot" ∷ []);
            }),
      )

  abbrev settled_by :
      Option BillingAccount → AtmInput → OperationalState → Result AtmTerminal × OperationalState
  settled_by none input s =
      (thrown ("Unknown OmniBucks account: " ++ input.settlement_account_id), s)
  settled_by (some account) input s = set_up account input (terminal_address input s)

  unfoldable pub setup_atm_terminal :
      AtmInput → OperationalState → Result AtmTerminal × OperationalState
  setup_atm_terminal input s =
      settled_by (account_named input.settlement_account_id s.billing_accounts) input s
