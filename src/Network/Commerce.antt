-- ===== src/Network/Commerce.antt =====
-- packages/operator-core/src/omnidat.ts: card transactions, food orders and passport stamps.
use Prim.Native.String.{String, ◌++◌}
use omnidat.Prelude.{
  ℕ, Option, none, some, List, [], ◌∷◌, ◌==◌, if◌then◌else◌, leb, ltb, string_eq, pos, pos_part,
  neg, join, get_or, numeral, pad_start,
}
use omnidat.Network.State.{
  BillingAccount, LedgerEntry, OperationalState, Words, append_audit, fixed2, account_named, charge,
}
use omnidat.Network.Provisioning.{Result, value, thrown}

pub record IsoInput : Type 0 where
  pub mti : String
  pub processing_code : String
  pub amount : ℕ
  pub account_id : String
  pub terminal_id : String
  pub retrieval_reference : String

pub record IsoResult : Type 0 where
  pub response_mti : String
  pub response_code : String
  pub authorization_code : String
  pub packed_request : String
  pub packed_response : String
  pub transcript : String

pub record SaleInput : Type 0 where
  pub terminal_id : String
  pub terminal_model : String
  pub merchant_account_id : String
  pub clerk_code : Option String
  pub amount : ℕ
  pub fee_policy_id : String
  pub note_serial : Option String
  pub retrieval_reference : String

pub record Sale : Type 0 where
  pub status : String
  pub fee : LedgerEntry
  pub iso : IsoResult
  pub transcript : String
  pub receipt : String

-- the response to a type of message
pub response_mti_for : String → String
response_mti_for mti =
    if mti == "0100"
    then "0110"
    else if mti == "0200"
    then "0210"
    else if mti == "0400"
    then "0410"
    else "0810"

-- an amount of money as twelve digits
pub cents : ℕ → String
cents amount = pad_start 12 (numeral 10 amount)

-- a field of a message, by its bit
abbrev field : ℕ → String → String
field bit content = "DE" ++ (pad_start 3 (numeral 10 bit) ++ ("=" ++ content))

-- `input.amount <= Math.max(account.balance, 0)`
abbrev code_for : ℕ → Option BillingAccount → String
code_for amount none = "12"
code_for amount (some account) = if leb amount (pos_part account.balance) then "00" else "51"

unfoldable pub fee_amount : String → ℕ
fee_amount policy = if policy == "OFFICIAL_EVENT_WAIVED" then 0 else 25

module _ (js : Words) where
  pub terminal_id : String → String
  terminal_id text = js.pad_end 8 (js.first 8 (js.capitals (js.upper (js.trim text))))

  pub trace_number : String → String
  trace_number reference =
      let digits = js.digits reference in
      pad_start 6 (js.last 6 (if digits == "" then "1" else digits))

  pub authorization_code : String → String
  authorization_code reference = "SB" ++ js.last 4 (trace_number reference)

  unfoldable pub redacted_account_token : String → String
  redacted_account_token account_id =
      "TOKEN********" ++ pad_start 4 (js.last 4 (js.alphanumeric account_id))

  unfoldable pub response_code : IsoInput → OperationalState → String
  response_code input s = code_for input.amount (account_named input.account_id s.billing_accounts)

  -- The fields stand in the order of their bits.
  abbrev request_fields : IsoInput → List String
  request_fields input =
      field 2 (redacted_account_token input.account_id)
      ∷ field 3 input.processing_code
      ∷ field 4 (cents input.amount)
      ∷ field 7 "0101000000"
      ∷ field 11 (trace_number input.retrieval_reference)
      ∷ field 37 (js.last 12 (pad_start 12 input.retrieval_reference))
      ∷ field 41 (terminal_id input.terminal_id)
      ∷ field 42 "SHADYBUCKS0001"
      ∷ field 49 "999"
      ∷ field 52 "[REDACTED-HSM-BLOCK]"
      ∷ []

  abbrev response_fields : IsoInput → String → String → List String
  response_fields input code auth =
      field 3 input.processing_code
      ∷ field 4 (cents input.amount)
      ∷ field 11 (trace_number input.retrieval_reference)
      ∷ field 37 (js.last 12 (pad_start 12 input.retrieval_reference))
      ∷ field 38 auth
      ∷ field 39 code
      ∷ field 41 (terminal_id input.terminal_id)
      ∷ field 49 "999"
      ∷ []

  unfoldable pub simulate_iso8583_transaction : IsoInput → OperationalState → IsoResult
  simulate_iso8583_transaction input s =
      let code = response_code input s in
      let auth = if code == "00" then authorization_code input.retrieval_reference else "DECLIN" in
      let mti = response_mti_for input.mti in
      record {
        response_mti = mti;
        response_code = code;
        authorization_code = auth;
        packed_request = "MTI=" ++ (input.mti ++ ("|" ++ join "|" (request_fields input)));
        packed_response = "MTI=" ++ (mti ++ ("|" ++ join "|" (response_fields input code auth)));
        transcript = join "\n" (
            "CALL 311088030100"
            ∷ "CONNECT OMNIBUCKS ATM PAD"
            ∷ ("ISO8583 " ++ (input.mti ++ (" -> " ++ mti)))
            ∷ ("PROC " ++ input.processing_code)
            ∷ ("AMOUNT " ++ (cents input.amount ++ " OMNI"))
            ∷ ("RRN " ++ input.retrieval_reference)
            ∷ ("RC " ++ code)
            ∷ ("AUTH " ++ auth)
            ∷ "RAIL omnibucks"
            ∷ []);
      }

  -- a line with an optional value, which is absent where it is empty
  abbrev line_or_none : String → Option String → String
  line_or_none label none = label ++ " NONE"
  line_or_none label (some v) = if v == "" then label ++ " NONE" else label ++ (" " ++ v)

  abbrev iso_input : SaleInput → String → String → IsoInput
  iso_input input account_id terminal = record {
    mti = "0200";
    processing_code = "000000";
    amount = input.amount;
    account_id = account_id;
    terminal_id = terminal;
    retrieval_reference = input.retrieval_reference;
  }

  abbrev network_fee : SaleInput → String → String → LedgerEntry
  network_fee input account_id terminal =
      let receipt = "RCPT-POS-" ++ js.last 6 input.retrieval_reference in
      record {
        id = "LEDGER-" ++ receipt;
        account_id = account_id;
        entry_kind = "pos-network-fee";
        amount = neg (fee_amount input.fee_policy_id);
        currency = "OMNI";
        memo = "OMNIDAT dial POS network fee for " ++ terminal;
        receipt_id = receipt;
      }

  abbrev sale_transcript : SaleInput → String → LedgerEntry → IsoResult → String
  sale_transcript input terminal entry iso = join "\n" (
      "DIAL 8810"
      ∷ "CONNECT 2400"
      ∷ "ORIGIN 311088040001"
      ∷ "CALL 311088002010"
      ∷ "CONNECT OMNIBUCKS POS AUTHORIZATION"
      ∷ ("TERMINAL " ++ terminal)
      ∷ ("MODEL " ++ input.terminal_model)
      ∷ line_or_none "CLERK" input.clerk_code
      ∷ ("SALE " ++ (fixed2 input.amount ++ " OMNI"))
      ∷ line_or_none "NOTE" input.note_serial
      ∷ ("FEE POLICY " ++ input.fee_policy_id)
      ∷ ("NETWORK FEE " ++ (fixed2 (fee_amount input.fee_policy_id) ++ " OMNI"))
      ∷ ("RC " ++ iso.response_code)
      ∷ ("AUTH " ++ iso.authorization_code)
      ∷ ("RECEIPT " ++ entry.receipt_id)
      ∷ [])

  abbrev sale_receipt : SaleInput → String → String → LedgerEntry → IsoResult → String
  sale_receipt input terminal status entry iso = join "\n" (
      "OMNIDAT POS RECEIPT"
      ∷ ("TERMINAL " ++ terminal)
      ∷ ("MERCHANT " ++ entry.account_id)
      ∷ line_or_none "CLERK" input.clerk_code
      ∷ ("AMOUNT " ++ (fixed2 input.amount ++ " OMNI"))
      ∷ line_or_none "NOTE" input.note_serial
      ∷ js.upper status
      ∷ ("AUTH " ++ iso.authorization_code)
      ∷ ("NETWORK FEE " ++ (fixed2 (fee_amount input.fee_policy_id) ++ " OMNI"))
      ∷ ("RECEIPT " ++ entry.receipt_id)
      ∷ "RAIL omnibucks"
      ∷ [])

  abbrev sold :
      Option BillingAccount → SaleInput → OperationalState → Result Sale × OperationalState
  sold none input s = (thrown ("Unknown merchant account: " ++ input.merchant_account_id), s)
  sold (some merchant) input s =
      let terminal = js.upper (js.trim input.terminal_id) in
      let entry = network_fee input merchant.account_id terminal in
      let iso = simulate_iso8583_transaction (iso_input input merchant.account_id terminal) s in
      let status = if iso.response_code == "00" then "approved" else "declined" in
      let fee = fee_amount input.fee_policy_id in
      (
        value (record {
          status = status;
          fee = entry;
          iso = iso;
          transcript = sale_transcript input terminal entry iso;
          receipt = sale_receipt input terminal status entry iso;
        }),
        append_audit ("pos.sale." ++ status) "terminal" terminal
            (("amount", js.show (pos input.amount))
              ∷ ("merchantAccountId", merchant.account_id)
              ∷ ("clerkCode", get_or input.clerk_code "")
              ∷ ("feePolicyId", input.fee_policy_id)
              ∷ ("responseCode", iso.response_code)
              ∷ [])
            (record s {
              billing_accounts =
                  if ltb 0 fee
                  then charge merchant.account_id fee s.billing_accounts
                  else s.billing_accounts;
              ledger = entry ∷ s.ledger;
            }),
      )

  unfoldable pub process_vintage_pos_sale :
      SaleInput → OperationalState → Result Sale × OperationalState
  process_vintage_pos_sale input s =
      sold (account_named input.merchant_account_id s.billing_accounts) input s
