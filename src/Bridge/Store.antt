-- ===== src/Bridge/Store.antt =====
-- packages/matrix-bridge/src/store.ts: `BridgeStore`, its journal and the replay of it.
use mathlib.Core.Option as Option
use Prim.Native.String.{◌++◌ as text_append}
use omnidat.Prelude.{
  ℕ, ◌+◌, String, Bool, true, false, not, Option, none, some, get_or, List, [], ◌∷◌, ◌++◌, map,
  ◌==◌, if◌then◌else◌, ltb, max, filter, numeral, pad_start, nat_eq, string_eq,
}
use omnidat.Sync.Rows.{Json, Fields}
pub mod Views
pub mod Recovery
pub mod Reading
pub mod Receipts
pub mod Boards

-- `StoredDm`
pub record StoredDm : Type 0 where
  pub no : ℕ
  pub from : String
  pub to : String
  pub at : ℕ
  pub body : String
  pub read : Bool
  pub read_at : Option ℕ
  pub rcpt : String
  pub event_id : String

-- `StoredPost`
pub record StoredPost : Type 0 where
  pub no : ℕ
  pub poster : String
  pub at : ℕ
  pub body : String
  pub event_id : String
  pub thread : Option String
  pub ctx : Fields

-- `Op`
pub data Op : Type 0 where
  dm : (to from : String) → (no at : ℕ) → (body rcpt event_id : String) → Op
  read : (addr : String) → (at : ℕ) → Op
  post :
      (board : String)
      → (no : ℕ) → (poster : String) → (at : ℕ) → (body event_id : String)
      → (thread : Option String) → Fields
      → Op

-- A message is an object that its box and `byRcpt` share: `heap` holds the objects under their
-- addresses, of which those below `size` are in use. A map is the function that looks a key up.
pub record Store : Type 0 where
  pub heap : ℕ → Option StoredDm
  pub size : ℕ
  pub mail : String → Option (List ℕ)
  pub boards : String → Option (List StoredPost)
  pub by_rcpt : String → Option ℕ
  pub dm_seq : String → Option ℕ
  pub board_seq : String → Option ℕ
  pub rcpt_seq : ℕ
  pub event_seq : ℕ

abbrev pub empty : Store
empty = record {
  heap = λ p. none;
  size = 0;
  mail = λ k. none;
  boards = λ k. none;
  by_rcpt = λ k. none;
  dm_seq = λ k. none;
  board_seq = λ k. none;
  rcpt_seq = 0;
  event_seq = 0;
}

-- `map.set(key, value)`
abbrev pub put {ℓ} : {A : Type ℓ} → String → A → (String → Option A) → String → Option A
put key value m k = if k == key then some value else m k

abbrev pub put_at : ℕ → StoredDm → (ℕ → Option StoredDm) → ℕ → Option StoredDm
put_at p msg heap q = if q == p then some msg else heap q

abbrev pub mark : ℕ → StoredDm → StoredDm
mark at m = if m.read then m else record m { read = true; read_at = some at }

-- the loop over the box
pub mark_all : ℕ → List ℕ → (ℕ → Option StoredDm) → ℕ → Option StoredDm
mark_all at [] heap = heap
mark_all at (p ∷ ps) heap =
    mark_all at ps (λ q. if q == p then Option.map (mark at) (heap q) else heap q)

abbrev pub box_of : Store → String → List ℕ
box_of s addr = get_or (s.mail addr) []

abbrev pub posts_of : Store → String → List StoredPost
posts_of s board = get_or (s.boards board) []

pub apply : Op → Store → Store
apply (dm to from n at body rcpt event_id) s = record s {
  heap =
      put_at s.size
        (record {
          no = n;
          from = from;
          to = to;
          at = at;
          body = body;
          read = false;
          read_at = none;
          rcpt = rcpt;
          event_id = event_id;
        })
        s.heap;
  size = s.size + 1;
  mail = put to (box_of s to ++ s.size ∷ []) s.mail;
  by_rcpt = put rcpt s.size s.by_rcpt;
  dm_seq = put to (max (get_or (s.dm_seq to) 0) n) s.dm_seq;
}
apply (read addr at) s = record s { heap = mark_all at (box_of s addr) s.heap }
apply (post board n poster at body event_id thread ctx) s = record s {
  boards =
      put board
        (posts_of s board
          ++ (record {
            no = n;
            poster = poster;
            at = at;
            body = body;
            event_id = event_id;
            thread = thread;
            ctx = ctx;
          })
            ∷ [])
        s.boards;
  board_seq = put board (max (get_or (s.board_seq board) 0) n) s.board_seq;
}

-- what the replay counts after an op
abbrev pub counted : Op → Store → Store
counted (dm to from n at body rcpt event_id) s = record s {
  rcpt_seq = s.rcpt_seq + 1;
  event_seq = s.event_seq + 1;
}
counted (read addr at) s = s
counted (post board n poster at body event_id thread ctx) s = record s {
  event_seq = s.event_seq + 1;
}

-- What the program asks of text: `T` is the type of texts, `nothing` the empty one, `join` puts
-- one text after another, `is_blank` tells that `trim` leaves nothing, `parse` is `JSON.parse`
-- (`none` for an exception), `stringify` is `JSON.stringify`.
pub record TextOps (T : Type 0) : Type 0 where
  pub nothing : T
  pub join : T → T → T
  pub is_blank : T → Bool
  pub parse : T → Option Op
  pub stringify : Op → T

-- The text of the journal: its finished lines, and what follows the last newline.
pub record File (T : Type 0) : Type 0 where
  pub lines : List T
  pub rest : T

module _ {T : Type 0} (texts : TextOps T) where
  -- `appendFileSync(path, line + "\n")`
  abbrev pub append_line : T → File T → File T
  append_line line file = record {
    lines = file.lines ++ texts.join file.rest line ∷ [];
    rest = texts.nothing;
  }

  abbrev pub replay_line : T → Store → Store
  replay_line line s =
      if texts.is_blank line
      then s
      else elim (texts.parse line) [ none ↦ s | some op ↦ counted op (apply op s) ]

  unfoldable pub replay_lines : List T → Store → Store
  replay_lines [] s = s
  replay_lines (line ∷ lines) s = replay_lines lines (replay_line line s)

  -- `readFileSync(path).split("\n")`
  unfoldable pub replay : File T → Store
  replay file = replay_lines (file.lines ++ file.rest ∷ []) empty

-- the `BridgeStore`: what it holds in memory, and its file if it has a path
pub record Bridge (T : Type 0) : Type 0 where
  pub store : Store
  pub disk : Option (File T)

pub event_id_of : ℕ → String
event_id_of n = text_append "$evt-" (numeral 36 n)

pub rcpt_of : ℕ → String
rcpt_of n = text_append "MSG-" (pad_start 5 (numeral 10 n))

-- the op that `sendDm` makes
pub dm_op : ℕ → (from to body : String) → Store → Op
dm_op now from to body s =
    dm to from (get_or (s.dm_seq to) 0 + 1) now body (rcpt_of (s.rcpt_seq + 1))
      (event_id_of (s.event_seq + 1))

-- `opts`
pub record PostOptions : Type 0 where
  pub name : Option String
  pub thread : Option String
  pub ctx : Option Fields

-- `opts.name?.trim() || "anon"`
abbrev pub poster_of : (String → String) → Option String → String
poster_of trim none = "anon"
poster_of trim (some name) = if trim name == "" then "anon" else trim name

-- `opts.thread ? { thread: opts.thread } : {}`
abbrev pub thread_of : Option String → Option String
thread_of none = none
thread_of (some thread) = if thread == "" then none else some thread

pub post_op : (String → String) → ℕ → (board body : String) → PostOptions → Store → Op
post_op trim now board body opts s =
    post board (get_or (s.board_seq board) 0 + 1) (poster_of trim opts.name) now body
      (event_id_of (s.event_seq + 1)) (thread_of opts.thread) (get_or opts.ctx Fields.end)

module _ {T : Type 0} (texts : TextOps T) where
  abbrev pub append : Op → Option (File T) → Option (File T)
  append op disk = Option.map (append_line texts (texts.stringify op)) disk

  -- `sendDm`, with the receipt and the event id that it returns
  unfoldable pub send_dm : ℕ → (from to body : String) → Bridge T → (String × String) × Bridge T
  send_dm now from to body b =
      let op = dm_op now from to body b.store in
      let counting = record b.store {
        rcpt_seq = b.store.rcpt_seq + 1;
        event_seq = b.store.event_seq + 1;
      } in
      (
        (rcpt_of (b.store.rcpt_seq + 1), event_id_of (b.store.event_seq + 1)),
        record { store = apply op counting; disk = append op b.disk },
      )

  pub mark_read : ℕ → String → Bridge T → Bridge T
  mark_read now addr b = record {
    store = apply (read addr now) b.store;
    disk = append (read addr now) b.disk;
  }

  -- `boardPost`, with the number and the event id that it returns
  pub board_post :
      (String → String)
      → ℕ
      → (board body : String) → PostOptions
      → Bridge T
      → (ℕ × String) × Bridge T
  board_post trim now board body opts b =
      let op = post_op trim now board body opts b.store in
      let counting = record b.store { event_seq = b.store.event_seq + 1 } in
      (
        (get_or (b.store.board_seq board) 0 + 1, event_id_of (b.store.event_seq + 1)),
        record { store = apply op counting; disk = append op b.disk },
      )
