-- ===== src/Pad/Wire.antt =====
-- packages/pad-telnet/src/bridge.ts: `MatrixBridge`, over the handler of the bridge's server.
use omnidat.Prelude.{
  ℕ, ◌+◌, String, Bool, true, false, not, Option, none, some, List, [], ◌∷◌, ◌++◌, ◌≡◌, refl, ap,
  ◌∙◌, ◌==◌, ◌&&◌, ◌||◌, nat_eq, string_eq, option_eq, if◌then◌else◌, get_or, ℤ, pos, negsuc,
  Bool-cases, inl, inr,
}
use omnidat.Sync.Rows.{Json, Fields}
use omnidat.Bridge.Store.{TextOps, send_dm, rcpt_of}
use omnidat.Bridge.Store as Store
use omnidat.Bridge.Store.Views.{MailItem, BoardItem, DeliveryStatus, mailbox, hhmm}
use omnidat.Bridge.Store.Reading.{send_dm-mailbox}
use omnidat.Bridge.Store.Receipts.{IsSound}
use omnidat.Bridge.Server.{
  Body, Request, Reply, catalog, done, sent, mail, status, page, posted, Answer, handle, is_barred,
  handle-guards, send_endpoint, mailbox_endpoint, receipt_endpoint, read_endpoint, page_endpoint,
  post_endpoint,
}
use omnidat.Pad.Client.{
  cleared_with, cleared_for_status, Outcome, value, cleared, Fetched, request, Catalog,
  BridgeReceipt, Bridge,
}
use omnidat.Pad.Messaging.{run_msg, and_then, format_send_receipt}

-- the field of an object whose fields are texts
abbrev field_of : List (String × String) → String → Option String
field_of [] f = none
field_of ((g, v) ∷ rest) f = if f == g then some v else field_of rest f

-- the object that a request carries, as the server reads its fields
abbrev object : List (String × String) → Option Fields → Body
object fields ctx = record {
  text = λ f. get_or (field_of fields f) "";
  string = field_of fields;
  ctx = ctx;
}

-- a request that no pattern of the paths captures
abbrev plain : (client_secret method path : String) → Option Body → Request
plain client_secret method path body = record {
  secret = some client_secret;
  method = method;
  path = path;
  mailbox_of = none;
  receipt_of = none;
  page_of = none;
  post_to = none;
  after = none;
  body = body;
}

-- Whether `encodeURIComponent` of a text is a segment of the path that the server sees: an empty one
-- matches no pattern, and the URL drops the two that stand for directories.
abbrev pub is_segment : String → Bool
is_segment s = not (s == "" || (s == "." || (s == "..")))

-- what a pattern of the server's paths captures, decoded
abbrev captured : String → Option String
captured s = if is_segment s then some s else none

-- The server reads a negative `after` as it reads 0: every post follows it.
abbrev after_of : Option ℤ → Option ℕ
after_of none = none
after_of (some (pos n)) = some n
after_of (some (negsuc n)) = some 0

abbrev decoded : {A : Type 0} → Option A → Fetched A
decoded none = Fetched.unparsed
decoded (some a) = Fetched.ok a

-- `{ body, ctx: { transport } }`, and the name if there is one
abbrev post_object : String → Option String → String → Body
post_object body none transport =
    object (("body", body) ∷ []) (some (Fields.field "transport" (Json.str transport) Fields.end))
post_object body (some name) transport =
    object (("body", body) ∷ ("name", name) ∷ [])
      (some (Fields.field "transport" (Json.str transport) Fields.end))

abbrev receipt_in : Reply → Option BridgeReceipt
receipt_in (sent rcpt event_id) = some (record { rcpt = some rcpt; no = none })
receipt_in (posted n event_id) = some (record { rcpt = none; no = some n })
receipt_in _ = none

abbrev mail_in : Reply → Option (List MailItem)
mail_in (mail items) = some items
mail_in _ = none

abbrev page_in : Reply → Option (List BoardItem)
page_in (page items) = some items
page_in _ = none

abbrev status_in : Reply → Option DeliveryStatus
status_in (status s) = some s
status_in _ = none

abbrev done_in : Reply → Option {0} Unit
done_in done = some tt
done_in _ = none

module _ {T : Type 0} (texts : TextOps T) (trim : String → String) (hours minutes : ℕ → ℕ) (now : ℕ)
    (secret client_secret : String) (served : Catalog) where
  -- the catalog that the server is given
  abbrev catalog_in : Reply → Option Catalog
  catalog_in catalog = some served
  catalog_in _ = none

  abbrev settle : {A : Type 0} → (Reply → Option A) → Answer T → Outcome A × Store.Bridge T
  settle decode (code, reply, b) =
      (request (if code == 200 then decoded (decode reply) else Fetched.status code), b)

  -- a request over the wire, and what its response decodes to
  unfoldable pub exchange :
      {A : Type 0} → (Reply → Option A) → Request → Store.Bridge T → Outcome A × Store.Bridge T
  exchange decode r b = settle decode (handle texts trim hours minutes now secret r b)

  abbrev pub matrix_bridge : Bridge (Store.Bridge T)
  matrix_bridge = record {
    send_dm = λ from to body b.
        exchange receipt_in
          (plain client_secret "POST" "/dm/send"
            (some (object (("from", from) ∷ ("to", to) ∷ ("body", body) ∷ []) none)))
          b;
    mailbox = λ addr b.
        exchange mail_in
          (record (plain client_secret "GET" "/dm/mailbox/" none) { mailbox_of = captured addr }) b;
    mark_read = λ addr b.
        exchange done_in
          (plain client_secret "POST" "/dm/read" (some (object (("addr", addr) ∷ []) none))) b;
    board_page = λ board after b.
        exchange page_in
          (record (plain client_secret "GET" "/board/page" none) {
            page_of = captured board;
            after = after_of after;
          })
          b;
    board_post = λ board body name transport b.
        exchange receipt_in
          (record (plain client_secret "POST" "/board/post"
            (some (post_object body name transport))) { post_to = captured board })
          b;
    boards = λ b. exchange catalog_in (plain client_secret "GET" "/boards" none) b;
    receipt = λ rcpt b.
        exchange status_in
          (record (plain client_secret "GET" "/dm/receipt/" none) { receipt_of = captured rcpt }) b;
  }

  abbrev mismatched : Bool
  mismatched = not (secret == "") && not (some client_secret == some secret)

  exchange_barred :
      {A : Type 0} (decode : Reply → Option A) (r : Request) (b : Store.Bridge T)
      → is_barred texts trim hours minutes now secret r ≡ true
      → exchange decode r b ≡ (cleared (cleared_with "RPE" 17 0), b)
  unfolding exchange request cleared_for_status
  exchange_barred decode r b h =
      rw ((handle-guards texts trim hours minutes now secret r b).0, h) refl

  -- Against a server with another secret, mail, messages, receipts, marks, boards and the catalog
  -- all clear with RPE 17, and the server's store is as it was.
  pub matrix_bridge-mismatched :
      (from to body addr rcpt board : String) (after : Option ℤ) (b : Store.Bridge T)
      → mismatched ≡ true
      → let barred = cleared_with "RPE" 17 0 in
        (matrix_bridge.send_dm from to body b ≡ (cleared barred, b))
        × (matrix_bridge.mailbox addr b ≡ (cleared barred, b))
        × (matrix_bridge.mark_read addr b ≡ (cleared barred, b))
        × (matrix_bridge.board_page board after b ≡ (cleared barred, b))
        × (matrix_bridge.board_post board body none "pad" b ≡ (cleared barred, b))
        × (matrix_bridge.boards b ≡ (cleared barred, b))
        × (matrix_bridge.receipt rcpt b ≡ (cleared barred, b))
  matrix_bridge-mismatched from to body addr rcpt board after b h = (
    exchange_barred receipt_in _ b h,
    exchange_barred mail_in _ b h,
    exchange_barred done_in _ b h,
    exchange_barred page_in _ b h,
    exchange_barred receipt_in _ b h,
    exchange_barred catalog_in _ b h,
    exchange_barred status_in _ b h,
  )

  unbarred :
      (r : Request) (b : Store.Bridge T)
      → is_barred texts trim hours minutes now secret r ≡ false
      → handle texts trim hours minutes now secret r b ≡ handle texts trim hours minutes now "" r b
  unbarred r b h = (handle-guards texts trim hours minutes now secret r b).0 ∙ rw h refl

  send_dm_exchanged :
      (from to body : String) (b : Store.Bridge T)
      → mismatched ≡ false
      → (from == "" || (to == "" || (body == ""))) ≡ false
      → matrix_bridge.send_dm from to body b ≡ (
        value (record { rcpt = some (rcpt_of (b.store.rcpt_seq + 1)); no = none }),
        (send_dm texts now from to body b).1,
      )
  unfolding exchange request handle send_endpoint send_dm
  send_dm_exchanged from to body b free full = rw (free, full) refl

  mailbox_exchanged :
      (addr : String) (b : Store.Bridge T)
      → mismatched ≡ false
      → matrix_bridge.mailbox addr b ≡ (
        (if is_segment addr
            then value (mailbox hours minutes b.store addr)
            else cleared (cleared_with "NP" 13 0)),
        b,
      )
  unfolding exchange request handle send_endpoint mailbox_endpoint receipt_endpoint read_endpoint
      page_endpoint post_endpoint cleared_for_status
  mailbox_exchanged addr b free = elim (Bool-cases (is_segment addr)) [
    | inl segment ↦ rw (free, segment) refl
    | inr dropped ↦ rw (free, dropped) refl
  ]

  run_msg_exchanged :
      (from to body : String) (b : Store.Bridge T)
      → mismatched ≡ false
      → (from == "" || (to == "" || (body == ""))) ≡ false
      → run_msg matrix_bridge from to body b ≡ (
        value (format_send_receipt (rcpt_of (b.store.rcpt_seq + 1))),
        (send_dm texts now from to body b).1,
      )
  unfolding run_msg and_then
  run_msg_exchanged from to body b free full = rw (send_dm_exchanged from to body b free full) refl

  -- With the server's secret, a sender, an addressee and a text that are not empty, and a server's
  -- store that is sound, as every store is that calls led to: MSG on one terminal says the receipt,
  -- and the mailbox that any terminal then reads is the one from before, with the message at its end
  -- where it is the addressee's; but for an address that no segment of a path can be (an empty one,
  -- and the two of directories) the read clears with NP 13.
  pub run_msg-delivers :
      (from to body addr : String) (b : Store.Bridge T)
      → IsSound b.store
      → mismatched ≡ false
      → (from == "" || (to == "" || (body == ""))) ≡ false
      → let after = run_msg matrix_bridge from to body b in
        (after.0 ≡ value (format_send_receipt (rcpt_of (b.store.rcpt_seq + 1))))
        × ((matrix_bridge.mailbox addr after.1).0 ≡ (
            if is_segment addr
            then value (
                if addr == to
                then mailbox hours minutes b.store addr
                  ++ (record {
                    no = get_or (b.store.dm_seq to) 0 + 1;
                    from = from;
                    ts = hhmm hours minutes now;
                    body = body;
                  })
                    ∷ []
                else mailbox hours minutes b.store addr)
            else cleared (cleared_with "NP" 13 0)))
  run_msg-delivers from to body addr b sound free full =
      let after = run_msg_exchanged from to body b free full in
      let store1 = (send_dm texts now from to body b).1 in
      (
        ap (λ a. a.0) after,
        ap (λ a. (matrix_bridge.mailbox addr a.1).0) after
            ∙ ap (λ a. a.0) (mailbox_exchanged addr store1 free)
            ∙ ap
                (λ items. if is_segment addr then value items else cleared (cleared_with "NP" 13 0))
                (send_dm-mailbox hours minutes texts now from to body addr b sound),
      )
