-- ===== src/Bridge/Store/Recovery.antt =====
-- What the store holds is what a restart reads back from its journal.
use mathlib.Core.Option as Option
use omnidat.Prelude.{
  ℕ, String, true, false, none, some, List, [], ◌∷◌, ◌++◌, ◌≡◌, refl, sym, ap, ◌∙◌, string_eq,
  Bool-cases, inl, inr,
}
use omnidat.Bridge.Store.{
  TextOps, Op, read, Store, empty, apply, counted, File, append_line, replay_line, replay_lines,
  replay, Bridge, dm_op, PostOptions, post_op, send_dm, mark_read, board_post,
}

-- A call of the store that writes.
pub data Call : Type 0 where
  send : ℕ → (from to body : String) → Call
  mark : ℕ → (addr : String) → Call
  publish : ℕ → (board body : String) → PostOptions → Call

-- What it relies on: `join` and `is_blank` know the empty text, and `JSON.parse` reads back
-- what `JSON.stringify` gave, which is never blank.
pub record IsText {T : Type 0} (texts : TextOps T) : Type 0 where
  pub join_nothing : (t : T) → texts.join texts.nothing t ≡ t
  pub nothing_blank : texts.is_blank texts.nothing ≡ true
  pub parse_stringify : (op : Op) → texts.parse (texts.stringify op) ≡ some op
  pub stringify_blank : (op : Op) → texts.is_blank (texts.stringify op) ≡ false

module _ {T : Type 0} (trim : String → String) (texts : TextOps T) where
  -- the store after the call
  unfoldable pub perform : Call → Bridge T → Bridge T
  perform (send now from to body) b = (send_dm texts now from to body b).1
  perform (mark now addr) b = mark_read texts now addr b
  perform (publish now board body opts) b = (board_post texts trim now board body opts b).1

  unfoldable pub perform_all : List Call → Bridge T → Bridge T
  perform_all [] b = b
  perform_all (c ∷ cs) b = perform_all cs (perform c b)

  -- The journal is whole, and its replay is what the store holds.
  pub record Durable (b : Bridge T) : Type 0 where
    pub file : File T
    pub on_disk : b.disk ≡ some file
    pub whole : file.rest ≡ texts.nothing
    pub replayed : replay texts file ≡ b.store

  replay_lines-append :
      (xs ys : List T) (s : Store)
      → replay_lines texts (xs ++ ys) s ≡ replay_lines texts ys (replay_lines texts xs s)
  unfolding replay_lines
  replay_lines-append [] ys s = refl
  replay_lines-append (x ∷ xs) ys s = replay_lines-append xs ys (replay_line texts x s)

  module _ (laws : IsText texts) where
    replay_line-stringify :
        (op : Op) (s : Store) → replay_line texts (texts.stringify op) s ≡ counted op (apply op s)
    replay_line-stringify op s = rw (laws.stringify_blank op) (rw (laws.parse_stringify op) refl)

    replay-whole :
        (file : File T)
        → file.rest ≡ texts.nothing
        → replay texts file ≡ replay_lines texts file.lines empty
    unfolding replay replay_lines
    replay-whole file h =
        replay_lines-append file.lines (file.rest ∷ []) empty ∙ rw h (rw laws.nothing_blank refl)

    replay-append_line :
        (file : File T) (op : Op)
        → file.rest ≡ texts.nothing
        → replay texts (append_line texts (texts.stringify op) file)
          ≡ counted op (apply op (replay texts file))
    unfolding replay_lines
    replay-append_line file op h =
        replay-whole (append_line texts (texts.stringify op) file) refl
        ∙ replay_lines-append file.lines (texts.join file.rest (texts.stringify op) ∷ []) empty
        ∙ ap (λ line. replay_line texts line (replay_lines texts file.lines empty))
            (ap (λ r. texts.join r (texts.stringify op)) h ∙ laws.join_nothing (texts.stringify op))
        ∙ replay_line-stringify op (replay_lines texts file.lines empty)
        ∙ ap (λ s. counted op (apply op s)) (sym (replay-whole file h))

    Durable-op :
        (op : Op) (b : Bridge T)
        → Durable b
        → Durable (record {
          store = counted op (apply op b.store);
          disk = Option.map (append_line texts (texts.stringify op)) b.disk;
        })
    Durable-op op b d = record {
      file = append_line texts (texts.stringify op) d.file;
      on_disk = ap (Option.map (append_line texts (texts.stringify op))) d.on_disk;
      whole = refl;
      replayed =
          replay-append_line d.file op d.whole ∙ ap (λ s. counted op (apply op s)) d.replayed;
    }

    perform-Durable : (c : Call) (b : Bridge T) → Durable b → Durable (perform c b)
    unfolding perform send_dm mark_read board_post dm_op post_op apply
    perform-Durable (send now from to body) b d = Durable-op (dm_op now from to body b.store) b d
    perform-Durable (mark now addr) b d = Durable-op (read addr now) b d
    perform-Durable (publish now board body opts) b d =
        Durable-op (post_op trim now board body opts b.store) b d

    perform_all-Durable : (cs : List Call) (b : Bridge T) → Durable b → Durable (perform_all cs b)
    unfolding perform_all
    perform_all-Durable [] b d = d
    perform_all-Durable (c ∷ cs) b d = perform_all-Durable cs (perform c b) (perform-Durable c b d)

-- A store whose journal ends in a newline and reads back as what the store holds keeps that
-- property through every sequence of sends, reads and posts: a restart recovers every message,
-- every read mark, every post and every counter. The texts are assumed to satisfy `IsText`.
pub perform_all-recovers :
    {T : Type 0} (trim : String → String) (texts : TextOps T)
    → IsText texts
    → (cs : List Call) (b : Bridge T) (file : File T) → b.disk ≡ some file
    → file.rest ≡ texts.nothing
    → replay texts file ≡ b.store
    → (file' : File T) × ((perform_all trim texts cs b).disk ≡ some file')
      × (replay texts file' ≡ (perform_all trim texts cs b).store)
perform_all-recovers trim texts laws cs b file d w r =
    let durable =
      perform_all-Durable trim texts laws cs b
        (record { file = file; on_disk = d; whole = w; replayed = r }) in
    (durable.file, durable.on_disk, durable.replayed)

-- An op written after a torn line is lost, with that line: when neither what follows the last
-- newline nor that with the op after it parses, a restart after the write gives the store that a
-- restart before it gives. The texts are assumed to satisfy `IsText`.
pub append_line-torn :
    {T : Type 0} (trim : String → String) (texts : TextOps T)
    → IsText texts
    → (file : File T) (op : Op) → texts.parse file.rest ≡ none
    → texts.parse (texts.join file.rest (texts.stringify op)) ≡ none
    → replay texts (append_line texts (texts.stringify op) file) ≡ replay texts file
unfolding replay replay_lines
append_line-torn {T} trim texts laws file op torn h =
    replay_lines-append trim texts (file.lines ++ line ∷ []) (texts.nothing ∷ []) empty
    ∙ ap (replay_lines texts (texts.nothing ∷ []))
        (replay_lines-append trim texts file.lines (line ∷ []) empty)
    ∙ last_lines (replay_lines texts file.lines empty)
    ∙ sym (replay_lines-append trim texts file.lines (file.rest ∷ []) empty)
  where
    line : T
    line = texts.join file.rest (texts.stringify op)

    skipped : (t : T) (s : Store) → texts.parse t ≡ none → replay_line texts t s ≡ s
    skipped t s e = elim (Bool-cases (texts.is_blank t)) [
      | inl blank ↦ rw blank refl
      | inr full ↦ rw full (rw e refl)
    ]

    last_lines :
        (s : Store)
        → replay_lines texts (texts.nothing ∷ []) (replay_lines texts (line ∷ []) s)
          ≡ replay_lines texts (file.rest ∷ []) s
    last_lines s = rw laws.nothing_blank (skipped line s h ∙ sym (skipped file.rest s torn))
