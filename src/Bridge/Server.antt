-- ===== src/Bridge/Server.antt =====
-- packages/matrix-bridge/src/server.ts: `handle`, the endpoints over the store.
use omnidat.Prelude.{
  ℕ, String, Bool, true, false, not, Option, none, some, List, ◌≡◌, refl, ◌==◌, ◌&&◌, ◌||◌,
  if◌then◌else◌, string_eq, option_eq, Bool-cases, Option-cases, if_then, if_else, inl, inr,
}
use omnidat.Sync.Rows.{Fields}
use omnidat.Bridge.Store.{Bridge, TextOps, send_dm, mark_read, board_post}
use omnidat.Bridge.Store.Views.{MailItem, DeliveryStatus, BoardItem, mailbox, receipt, board_page}

-- The body of a request: `text` is `String(body.field ?? "")`, `string` the field if it is a string.
pub record Body : Type 0 where
  pub text : String → String
  pub string : String → Option String
  pub ctx : Option Fields

-- A request, with what its path's patterns capture, decoded. `body` is `none` if it does not parse;
-- `after` is the number of the parameter, if there is one.
pub record Request : Type 0 where
  pub secret : Option String
  pub method : String
  pub path : String
  pub mailbox_of : Option String
  pub receipt_of : Option String
  pub page_of : Option String
  pub post_to : Option String
  pub after : Option ℕ
  pub body : Option Body

pub data Reply : Type 0 where
  error : String → Reply
  health catalog done : Reply
  sent : (rcpt event_id : String) → Reply
  mail : List MailItem → Reply
  status : DeliveryStatus → Reply
  page : List BoardItem → Reply
  posted : (no : ℕ) → (event_id : String) → Reply

-- the status code, the reply, and the store afterwards
abbrev pub Answer : Type 0 → Type 0
Answer T = ℕ × Reply × Bridge T

abbrev pub sent_of : {T : Type 0} → (String × String) × Bridge T → Answer T
sent_of ((rcpt, event_id), b) = (200, sent rcpt event_id, b)

abbrev pub posted_of : {T : Type 0} → (ℕ × String) × Bridge T → Answer T
posted_of ((n, event_id), b) = (200, posted n event_id, b)

module _ {T : Type 0} (texts : TextOps T) (trim : String → String) (hours minutes : ℕ → ℕ)
    (now : ℕ) where
  -- a body that does not parse ends in the catch of the server
  abbrev with_body : Option Body → Bridge T → (Body → Answer T) → Answer T
  with_body none b answer = (400, error "malformed", b)
  with_body (some body) b answer = answer body

  abbrev status_reply : Option DeliveryStatus → Bridge T → Answer T
  status_reply none b = (404, error "no such receipt", b)
  status_reply (some s) b = (200, status s, b)

  -- `/board/…/post`
  unfoldable pub post_endpoint : Request → Bridge T → Answer T
  post_endpoint request b = elim request.post_to [
    | none ↦ (404, error "no such endpoint", b)
    | some board ↦
        if request.method == "POST"
        then with_body request.body b (λ body.
          if body.text "body" == ""
          then (400, error "body is required", b)
          else posted_of (
              board_post texts trim now board (body.text "body")
                (record {
                  name = body.string "name";
                  thread = body.string "thread";
                  ctx = body.ctx;
                })
                b))
        else (404, error "no such endpoint", b)
  ]

  unfoldable pub page_endpoint : Request → Bridge T → Answer T
  page_endpoint request b = elim request.page_of [
    | none ↦ post_endpoint request b
    | some board ↦
        if request.method == "GET"
        then (200, page (board_page b.store board request.after), b)
        else post_endpoint request b
  ]

  unfoldable pub read_endpoint : Request → Bridge T → Answer T
  read_endpoint request b =
      if request.path == "/dm/read" && (request.method == "POST")
      then with_body request.body b (λ body.
        if body.text "addr" == ""
        then (400, error "addr is required", b)
        else (200, done, mark_read texts now (body.text "addr") b))
      else page_endpoint request b

  unfoldable pub receipt_endpoint : Request → Bridge T → Answer T
  receipt_endpoint request b = elim request.receipt_of [
    | none ↦ read_endpoint request b
    | some rcpt ↦
        if request.method == "GET"
        then status_reply (receipt hours minutes b.store rcpt) b
        else read_endpoint request b
  ]

  unfoldable pub mailbox_endpoint : Request → Bridge T → Answer T
  mailbox_endpoint request b = elim request.mailbox_of [
    | none ↦ receipt_endpoint request b
    | some addr ↦
        if request.method == "GET"
        then (200, mail (mailbox hours minutes b.store addr), b)
        else receipt_endpoint request b
  ]

  unfoldable pub send_endpoint : Request → Bridge T → Answer T
  send_endpoint request b =
      if request.path == "/dm/send" && (request.method == "POST")
      then with_body request.body b (λ body.
        if body.text "from" == "" || (body.text "to" == "" || (body.text "body" == ""))
        then (400, error "from, to and body are required", b)
        else sent_of (send_dm texts now (body.text "from") (body.text "to") (body.text "body") b))
      else mailbox_endpoint request b

  -- `secret && req.headers["x-omnidat-secret"] !== secret`
  abbrev pub is_barred : String → Request → Bool
  is_barred secret request = not (secret == "") && not (request.secret == some secret)

  unfoldable pub handle : (secret : String) → Request → Bridge T → Answer T
  handle secret request b =
      if is_barred secret request
      then (401, error "bad secret", b)
      else if request.path == "/" || (request.path == "/health")
      then (200, health, b)
      else if request.path == "/boards" && (request.method == "GET")
      then (200, catalog, b)
      else send_endpoint request b

  post_endpoint-keeps :
      (request : Request) (b : Bridge T)
      → (request.method == "POST") ≡ false
      → (post_endpoint request b).2 ≡ b
  unfolding post_endpoint
  post_endpoint-keeps request b h = elim (Option-cases request.post_to) [
    | inl absent ↦ rw (post_endpoint, absent) refl
    | inr (board, named) ↦ rw (post_endpoint, named) (rw h refl)
  ]

  page_endpoint-keeps :
      (request : Request) (b : Bridge T)
      → (request.method == "POST") ≡ false
      → (page_endpoint request b).2 ≡ b
  unfolding page_endpoint
  page_endpoint-keeps request b h = elim (Option-cases request.page_of) [
    | inl absent ↦ rw (page_endpoint, absent) (post_endpoint-keeps request b h)
    | inr (board, named) ↦
        rw (page_endpoint, named)
          (elim (Bool-cases (request.method == "GET")) [
            | inl get ↦ rw get refl
            | inr other ↦ rw other (post_endpoint-keeps request b h)
          ])
  ]

  read_endpoint-keeps :
      (request : Request) (b : Bridge T)
      → (request.method == "POST") ≡ false
      → (read_endpoint request b).2 ≡ b
  unfolding read_endpoint
  read_endpoint-keeps request b h = elim (Bool-cases (request.path == "/dm/read")) [
    | inl here ↦ rw (here, h) (page_endpoint-keeps request b h)
    | inr there ↦ rw there (page_endpoint-keeps request b h)
  ]

  receipt_endpoint-keeps :
      (request : Request) (b : Bridge T)
      → (request.method == "POST") ≡ false
      → (receipt_endpoint request b).2 ≡ b
  unfolding receipt_endpoint
  receipt_endpoint-keeps request b h = elim (Option-cases request.receipt_of) [
    | inl absent ↦ rw (receipt_endpoint, absent) (read_endpoint-keeps request b h)
    | inr (rcpt, named) ↦
        rw (receipt_endpoint, named)
          (elim (Bool-cases (request.method == "GET")) [
            | inl get ↦ rw get (replied (receipt hours minutes b.store rcpt))
            | inr other ↦ rw other (read_endpoint-keeps request b h)
          ])
  ]
    where
      replied : (o : Option DeliveryStatus) → (status_reply o b).2 ≡ b
      replied none = refl
      replied (some s) = refl

  mailbox_endpoint-keeps :
      (request : Request) (b : Bridge T)
      → (request.method == "POST") ≡ false
      → (mailbox_endpoint request b).2 ≡ b
  unfolding mailbox_endpoint
  mailbox_endpoint-keeps request b h = elim (Option-cases request.mailbox_of) [
    | inl absent ↦ rw (mailbox_endpoint, absent) (receipt_endpoint-keeps request b h)
    | inr (addr, named) ↦
        rw (mailbox_endpoint, named)
          (elim (Bool-cases (request.method == "GET")) [
            | inl get ↦ rw get refl
            | inr other ↦ rw other (receipt_endpoint-keeps request b h)
          ])
  ]

  send_endpoint-keeps :
      (request : Request) (b : Bridge T)
      → (request.method == "POST") ≡ false
      → (send_endpoint request b).2 ≡ b
  unfolding send_endpoint
  send_endpoint-keeps request b h = elim (Bool-cases (request.path == "/dm/send")) [
    | inl here ↦ rw (here, h) (mailbox_endpoint-keeps request b h)
    | inr there ↦ rw there (mailbox_endpoint-keeps request b h)
  ]

  handle-keeps :
      (secret : String) (request : Request) (b : Bridge T)
      → (request.method == "POST") ≡ false
      → (handle secret request b).2 ≡ b
  unfolding handle
  handle-keeps secret request b h = elim (Bool-cases (is_barred secret request)) [
    | inl barred ↦ rw barred refl
    | inr free ↦ rw free (
        routed (request.path == "/" || (request.path == "/health"))
          (request.path == "/boards" && (request.method == "GET")))
  ]
    where
      routed :
          (live boards : Bool)
          → (if live
              then (200, health, b)
              else if boards
              then (200, catalog, b)
              else send_endpoint request b).2
            ≡ b
      routed true boards = refl
      routed false true = refl
      routed false false = send_endpoint-keeps request b h

  handle_unbarred :
      (secret : String) (request : Request) (b : Bridge T)
      → handle secret request b
        ≡ (if is_barred secret request then (401, error "bad secret", b) else handle "" request b)
  unfolding handle
  handle_unbarred secret request b = elim (Bool-cases (is_barred secret request)) [
    | inl barred ↦ rw barred refl
    | inr free ↦ rw free refl
  ]

  -- A request barred by the secret is answered 401 and changes nothing, whatever it asks for, and
  -- any other is answered as if no secret were set; and only a POST can change the store.
  pub handle-guards :
      (secret : String) (request : Request) (b : Bridge T)
      → (handle secret request b ≡ (
          if is_barred secret request then (401, error "bad secret", b) else handle "" request b))
        × ((handle secret request b).2
            ≡ (if request.method == "POST" then (handle secret request b).2 else b))
  handle-guards secret request b = (
    handle_unbarred secret request b,
    elim (Bool-cases (request.method == "POST")) [
      | inl post ↦ if_then b (request.method == "POST") post refl
      | inr other ↦
          if_else (handle secret request b).2 (request.method == "POST") other
            (handle-keeps secret request b other)
    ],
  )
