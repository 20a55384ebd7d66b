-- ===== src/Pad/Messaging.antt =====
-- packages/pad-telnet/src/messaging.ts: the formats of mail and boards, and the verbs over the bridge.
use Prim.Native.String.{◌++◌}
use omnidat.Prelude.{
  ℕ, zero, suc, ◌-◌, String, Bool, false, Option, none, some, List, [], ◌∷◌, map, leb, ◌==◌,
  if◌then◌else◌, string_eq, numeral, pad_start, join, length, find, ℤ,
}
use mathlib.Core.List.{◌++◌ as list_append}
use mathlib.Core.Option as Option
use omnidat.Bridge.Store.Views.{MailItem, BoardItem, DeliveryStatus}
use omnidat.Pad.Client.{
  cleared_with, Outcome, value, cleared, thrown, Call, BoardDef, MailDef, Catalog, Bridge,
}

-- a catalog's service at an address
pub data Resolved : Type 0 where
  board : BoardDef → Resolved
  mail : Resolved

abbrev is_mail_at : Option MailDef → String → Bool
is_mail_at none address = false
is_mail_at (some m) address = address == m.address

unfoldable pub resolve_catalog : Catalog → String → Option Resolved
resolve_catalog catalog address =
    if is_mail_at catalog.mail address
    then some mail
    else Option.map board (find (λ (b : BoardDef). b.address == address) catalog.boards)

-- spaces on the right, and on the left
spaces : ℕ → String
spaces zero = ""
spaces (suc n) = " " ++ spaces n

-- What the formats use: `hhmm` is `msToHhmm`, `digits` the number that a text of digits is, `has_t`
-- tests for a "T", `clock` is `slice(11, 16)` and `size` the `length` of a text.
pub record Times : Type 0 where
  pub hhmm : ℕ → String
  pub digits : String → Option ℕ
  pub has_t : String → Bool
  pub clock : String → String
  pub size : String → ℕ

-- a time stamp, of either type that the bridge sends
pub data Stamp : Type 0 where
  number : ℕ → Stamp
  text : String → Stamp

abbrev pub format_send_receipt : String → String
format_send_receipt rcpt = "MSG SENT RCPT " ++ (rcpt ++ " CLR 00")

abbrev state_of : DeliveryStatus → String
state_of s =
    if s.read
    then "READ" ++ (elim s.read_at [ none ↦ "" | some at ↦ if at == "" then "" else " " ++ at ])
    else if s.delivered
    then "DELIVERED — UNREAD"
    else "PENDING"

pub format_delivery : DeliveryStatus → String
format_delivery s =
    join "\r\n"
      (("TELEGRAM " ++ s.rcpt) ∷ ("TO " ++ (s.to ++ ("  " ++ state_of s))) ∷ "CLR 00" ∷ [])

pub format_post_receipt : ℕ → String
format_post_receipt n = "RCPT No." ++ (pad_start 5 (numeral 10 n) ++ " CLR 00")

module _ (times : Times) where
  abbrev terse_text : String → Option ℕ → String
  terse_text s (some ms) = times.hhmm ms
  terse_text s none = if times.has_t s then times.clock s else s

  pub terse_time : Stamp → String
  terse_time (number ms) = times.hhmm ms
  terse_time (text s) = terse_text s (times.digits s)

  abbrev mail_line : MailItem → String
  mail_line item =
      pad_start 3 (numeral 10 item.no)
      ++ (" FROM " ++ (item.from ++ ("  " ++ (terse_time (text item.ts) ++ ("  " ++ item.body)))))

  abbrev mail_lines : List MailItem → List String
  mail_lines [] = "NO MAIL" ∷ []
  mail_lines (item ∷ items) =
      let count = numeral 10 (length (item ∷ items)) in
      list_append (map mail_line (item ∷ items))
        (("END OF MAIL " ++ ((spaces (3 - times.size count) ++ count) ++ " MSG")) ∷ [])

  pub format_mailbox : String → List MailItem → String
  format_mailbox addr items =
      join "\r\n"
        (("OMNIDAT SUBSCRIBER MAIL  " ++ addr) ∷ list_append (mail_lines items) ("CLR 00" ∷ []))

  abbrev poster_column : String → String
  poster_column poster =
      if leb (times.size poster) 20
      then poster ++ spaces (20 - times.size poster)
      else poster ++ " "

  abbrev board_line : BoardItem → String
  board_line item =
      "No."
      ++ (pad_start 5 (numeral 10 item.no)
          ++ (" "
              ++ (poster_column item.poster
                  ++ (" " ++ (terse_time (number item.ts) ++ ("  " ++ item.body))))))

  abbrev board_lines : List BoardItem → List String
  board_lines [] = "NO POSTS" ∷ []
  board_lines (item ∷ items) = map board_line (item ∷ items)

  pub format_board_page : String → List BoardItem → String → String
  format_board_page board_id items read_class = join "\r\n" (
      ("OMNIDAT " ++ (read_class ++ (" BOARD /" ++ (board_id ++ "/"))))
      ∷ list_append (board_lines items) ("CLR 00" ∷ []))

-- `receipt.rcpt ?? receipt.no ?? "?"`
abbrev receipt_text : Option String → Option ℕ → String
receipt_text (some rcpt) n = rcpt
receipt_text none (some n) = numeral 10 n
receipt_text none none = "?"

-- `formatPostReceipt(receipt.no ?? "?")`, where `Number("?")` is NaN
abbrev posted_text : Option ℕ → String
posted_text (some n) = format_post_receipt n
posted_text none = "RCPT No.00NaN CLR 00"

module _ {W : Type 0} where
  -- `await`: a rejection ends the caller
  unfoldable pub and_then : {A B : Type 0} → Outcome A × W → (A → Call W B) → Outcome B × W
  and_then (value a, w) next = next a w
  and_then (cleared c, w) next = (cleared c, w)
  and_then (thrown, w) next = (thrown, w)

  abbrev pub return : {A : Type 0} → A → Call W A
  return a w = (value a, w)

  unfoldable pub run_msg : Bridge W → (from to body : String) → Call W String
  run_msg bridge from to body w =
      and_then (bridge.send_dm from to body w)
        (λ r. return (format_send_receipt (receipt_text r.rcpt r.no)))

  abbrev mark_if_any : Bridge W → String → List MailItem → Call W Unit
  mark_if_any bridge addr [] = return tt
  mark_if_any bridge addr (item ∷ items) = bridge.mark_read addr

  unfoldable pub run_mail : Times → Bridge W → String → Call W String
  run_mail times bridge addr w = and_then (bridge.mailbox addr w) (λ items w1.
      and_then (mark_if_any bridge addr items w1) (λ _. return (format_mailbox times addr items)))

  unfoldable pub run_sent : Bridge W → String → Call W String
  run_sent bridge rcpt w = and_then (bridge.receipt rcpt w) (λ s. return (format_delivery s))

  unfoldable pub run_board_read : Times → Bridge W → BoardDef → Option ℤ → Call W String
  run_board_read times bridge b after w =
      if b.read_class == "PUBLIC"
      then and_then (bridge.board_page b.board_id after w)
          (λ items. return (format_board_page times b.board_id items b.read_class))
      else (cleared (cleared_with "NA" 11 70), w)

  -- the session never gives a name
  unfoldable pub run_board_post : Bridge W → BoardDef → String → Option String → Call W String
  run_board_post bridge b body name w =
      if b.post_class == "PUBLIC"
      then and_then (bridge.board_post b.board_id body name "pad" w)
          (λ r. return (posted_text r.no))
      else (cleared (cleared_with "NA" 11 70), w)
