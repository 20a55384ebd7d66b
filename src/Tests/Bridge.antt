-- ===== src/Tests/Bridge.antt =====
-- Runs of the bridge store: a letter and a post, over a journal of ops.
use omnidat.Prelude.{
  ℕ, String, Bool, true, false, Option, none, some, List, [], ◌∷◌, ◌++◌, ◌≡◌, refl, All, string_eq,
}
use omnidat.Bridge.Store.{
  TextOps, Op, read, empty, File, Bridge, PostOptions, append_line, replay, replay_lines, mark_read,
  box_of,
}
use omnidat.Bridge.Store.Views.{mailbox}
use omnidat.Bridge.Store.Recovery.{
  Call, send, mark, publish, IsText, perform_all, perform_all-recovers, append_line-torn,
}
use omnidat.Bridge.Store.Receipts.{IsSound, perform_all-IsSound}
use omnidat.Bridge.Store.Reading.{mark_read-mailbox}
use omnidat.Bridge.Store.Boards.{IsNumbered, perform_all-IsNumbered}
use omnidat.Bridge.Server.{Request, error, handle, handle-guards}

-- A text as the list of the ops printed in it, `none` standing for a torn one.
abbrev pub Tape : Type 0
Tape = List (Option Op)

abbrev read_back : Tape → Option Op
read_back (some op ∷ []) = some op
read_back _ = none

abbrev blank : Tape → Bool
blank [] = true
blank (op ∷ ops) = false

abbrev pub tapes : TextOps Tape
tapes = record {
  nothing = [];
  join = λ s t. s ++ t;
  is_blank = blank;
  parse = read_back;
  stringify = λ op. some op ∷ [];
}

tapes-IsText : IsText tapes
tapes-IsText = record {
  join_nothing = λ t. refl;
  nothing_blank = refl;
  parse_stringify = λ op. refl;
  stringify_blank = λ op. refl;
}

abbrev pub same_text : String → String
same_text s = s

abbrev pub no_hours : ℕ → ℕ
no_hours ms = 0

abbrev plain : PostOptions
plain = record { name = none; thread = none; ctx = none }

abbrev new_file : File Tape
new_file = record { lines = []; rest = [] }

abbrev start : Bridge Tape
start = record { store = empty; disk = some new_file }

abbrev calls : List Call
calls =
    send 5 "ada" "bob" "hello"
    ∷ publish 6 "news" "rain" plain
    ∷ mark 7 "bob"
    ∷ send 8 "ada" "bob" "again"
    ∷ []

-- the store after the calls
abbrev pub busy : Bridge Tape
busy = perform_all same_text tapes calls start

new_file-replay : replay tapes new_file ≡ empty
unfolding replay replay_lines
new_file-replay = refl

perform_all-recovers_example :
    (file' : File Tape) × (busy.disk ≡ some file') × (replay tapes file' ≡ busy.store)
perform_all-recovers_example =
    perform_all-recovers same_text tapes tapes-IsText calls start new_file refl refl new_file-replay

-- a journal that ends in half an op
abbrev torn_file : File Tape
torn_file = record { lines = []; rest = none ∷ [] }

append_line-torn_example :
    replay tapes (append_line tapes (some (read "bob" 9) ∷ []) torn_file) ≡ replay tapes torn_file
append_line-torn_example =
    append_line-torn same_text tapes tapes-IsText torn_file (read "bob" 9) refl refl

pub busy-IsSound : IsSound busy.store
busy-IsSound = perform_all-IsSound tapes same_text calls (some new_file)

mark_read-mailbox_example :
    let marked = mark_read tapes 9 "bob" busy in
    (mailbox no_hours no_hours marked.store "bob" ≡ [])
    × All
        (λ p. (mark_read tapes 10 "bob" marked).store.heap p ≡ marked.store.heap p)
        (box_of busy.store "bob")
mark_read-mailbox_example = mark_read-mailbox no_hours no_hours tapes 9 10 "bob" busy

busy-IsNumbered : IsNumbered busy.store
busy-IsNumbered = perform_all-IsNumbered same_text tapes calls (some new_file)

-- a message sent without the secret
abbrev sneaky : Request
sneaky = record {
  secret = some "guess";
  method = "POST";
  path = "/dm/send";
  mailbox_of = none;
  receipt_of = none;
  page_of = none;
  post_to = none;
  after = none;
  body = some (record { text = λ f. "x"; string = λ f. none; ctx = none });
}

handle-guards_example :
    (handle tapes same_text no_hours no_hours 9 "key" sneaky busy ≡ (401, error "bad secret", busy))
    × ((handle tapes same_text no_hours no_hours 9 "key" sneaky busy).2
        ≡ (handle tapes same_text no_hours no_hours 9 "key" sneaky busy).2)
handle-guards_example = handle-guards tapes same_text no_hours no_hours 9 "key" sneaky busy
