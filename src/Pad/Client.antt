-- ===== src/Pad/Client.antt =====
-- packages/pad-telnet/src/bridge.ts: the client of the bridge, and the clears that its failures are.
use Prim.Native.String as Text
use omnidat.Prelude.{ℕ, String, Option, List, nat_eq, ◌==◌, if◌then◌else◌, ℤ, numeral}
use omnidat.Bridge.Store.Views.{MailItem, BoardItem, DeliveryStatus}

-- `BridgeCleared`, without the detail of its message
pub record BridgeCleared : Type 0 where
  pub signal : String
  pub cause : ℕ
  pub diagnostic : ℕ

pub clr_line : BridgeCleared → String
clr_line c = Text.◌++◌ "CLR " (
    Text.◌++◌ c.signal (
      Text.◌++◌ " C:" (Text.◌++◌ (numeral 10 c.cause) (Text.◌++◌ " D:" (numeral 10 c.diagnostic)))))

abbrev pub cleared_with : String → ℕ → ℕ → BridgeCleared
cleared_with signal cause diagnostic = record {
  signal = signal;
  cause = cause;
  diagnostic = diagnostic;
}

unfoldable pub cleared_for_status : ℕ → BridgeCleared
cleared_for_status status =
    if status == 400
    then cleared_with "ERR" 19 0
    else if status == 403
    then cleared_with "NA" 11 70
    else if status == 404
    then cleared_with "NP" 13 0
    else cleared_with "RPE" 17 0

-- what a promise settles to: a value, a clear, or another error
pub data Outcome (A : Type 0) : Type 0 where
  value : A → Outcome A
  cleared : BridgeCleared → Outcome A
  thrown : Outcome A

-- a call of the bridge: its outcome, and the world afterwards
abbrev pub Call : Type 0 → Type 0 → Type 0
Call W A = W → Outcome A × W

-- What `fetch` gives: a response whose body parses or not, an error status, or a failure, such as an
-- abort at the timeout.
pub data Fetched (A : Type 0) : Type 0 where
  ok : A → Fetched A
  unparsed : Fetched A
  status : ℕ → Fetched A
  offline : Fetched A

-- `request`: every failure is a clear.
unfoldable pub request : {A : Type 0} → Fetched A → Outcome A
request (ok a) = value a
request unparsed = cleared (cleared_with "DER" 9 0)
request (status n) = cleared (cleared_for_status n)
request offline = cleared (cleared_with "DER" 9 0)

pub record BoardDef : Type 0 where
  pub address : String
  pub board_id : String
  pub name : String
  pub read_class : String
  pub post_class : String

pub record MailDef : Type 0 where
  pub address : String
  pub name : String

pub record Catalog : Type 0 where
  pub boards : List BoardDef
  pub mail : Option MailDef

-- `BridgeReceipt`: `rcpt` and `no` as the texts they print to
pub record BridgeReceipt : Type 0 where
  pub rcpt : Option String
  pub no : Option ℕ

-- The interface `Bridge` over a world `W` that the bridge is part of. A post carries its name and the
-- transport of its context.
pub record Bridge (W : Type 0) : Type 0 where
  pub send_dm : (from to body : String) → Call W BridgeReceipt
  pub mailbox : String → Call W (List MailItem)
  pub mark_read : String → Call W Unit
  pub board_page : String → Option ℤ → Call W (List BoardItem)
  pub board_post :
      (board_id body : String)
      → (name : Option String) → (transport : String) → Call W BridgeReceipt
  pub boards : Call W Catalog
  pub receipt : String → Call W DeliveryStatus
