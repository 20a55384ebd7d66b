-- ===== src/Pad/Typing.antt =====
-- packages/pad-telnet/src/session.ts: the command that a typed line runs.
use omnidat.Prelude.{
  ℕ, false, none, List, [], ◌∷◌, ◌++◌, ◌≡◌, refl, subst, sym, Bool-cases, inl, inr, arith, All, map,
  ltb, ◌==◌, nat_eq, ◌||◌,
}
use omnidat.Pad.Telnet.{Iac}
use omnidat.Pad.Line.{FeedResult, Commands, Editor, Turn, signals, take, key, drop_last, feed}
use omnidat.Pad.Segments.{answer, feed-answer}
use omnidat.Pad.Editing.{IsPrintable}

-- The keys of a line editor: a character, or backspace.
pub data Key : Type 0 where
  typed : (c : ℕ) → Key
  erase : Key

abbrev pub byte_of : Key → ℕ
byte_of (typed c) = c
byte_of erase = 8

abbrev pub IsKey : Key → Type 0
IsKey (typed c) = IsPrintable c
IsKey erase = Unit

-- The text that the keys leave: a stack, pushed and popped at its end.
abbrev pub press : List ℕ → Key → List ℕ
press line (typed c) = line ++ c ∷ []
press line erase = drop_last line

abbrev pub edited : List ℕ → List Key → List ℕ
edited line [] = line
edited line (k ∷ keys) = edited (press line k) keys

module _ {S : Type 0} (commands : Commands S) where
  -- the editor at the start of a session's byte, with a line
  abbrev pub editing : List ℕ → S → Editor S
  editing line session = record { iac = Iac.none; line = line; session = session }

  take_typed :
      (c : ℕ) (line : List ℕ) (session : S)
      → IsPrintable c
      → take commands c (editing line session)
        ≡ (commands.echo c session, none, editing (line ++ c ∷ []) session)
  unfolding take key
  take_typed c line session (lo, hi) =
      let plain : (c == 255) ≡ false = ground arith in
      let shown : (ltb c 32 || ltb 126 c) ≡ false = ground arith in
      let other : (c == 13) ≡ false = ground arith in
      let skipped : (c == 10 || (c == 0)) ≡ false = ground arith in
      let erasing : (c == 8 || (c == 127)) ≡ false = ground arith in
      let cleared : (c == 3) ≡ false = ground arith in
      rw (plain, other, skipped, erasing, cleared, shown) refl

  -- what a byte leaves when it ends no command
  abbrev Quiet : List ℕ → S → Turn S → Type 0
  Quiet line session turn = (turn.1 ≡ none) × (turn.2 ≡ editing line session)

  take_key :
      (k : Key) (line : List ℕ) (session : S)
      → IsKey k
      → Quiet (press line k) session (take commands (byte_of k) (editing line session))
  unfolding take key
  take_key (typed c) line session h = rw (take_typed c line session h) (refl, refl)
  take_key erase [] session h = (refl, refl)
  take_key erase (d ∷ line) session h = (refl, refl)

  -- The command that CR runs in the state, and the editor after it.
  abbrev pub HasRun : List ℕ → S → FeedResult × Editor S → Type 0
  HasRun line session a =
      let outcome = commands.run (commands.text_of line) session in
      (a.1 ≡ editing [] outcome.1) × (signals a.0 ≡ signals outcome.0)

  answer_cr :
      (line : List ℕ) (session : S)
      → HasRun line session (answer commands (13 ∷ []) (editing line session))
  unfolding answer take key
  answer_cr line session =
      elim (Bool-cases (signals (commands.run (commands.text_of line) session).0)) [
        | inl stop ↦ rw stop (refl, stop)
        | inr go ↦ rw go (refl, refl)
      ]

  answer_keys :
      (keys : List Key) (line : List ℕ) (session : S)
      → All IsKey keys
      → HasRun
          (edited line keys)
          session
          (answer commands (map byte_of keys ++ 13 ∷ []) (editing line session))
  unfolding answer
  answer_keys [] line session h = answer_cr line session
  answer_keys (k ∷ keys) line session (first, others) =
      let (quiet, after) = take_key k line session first in
      rw (quiet, after) (answer_keys keys (press line k) session others)

  -- A line typed with its corrections and ended by CR runs one command, on the text that the
  -- characters and backspaces leave; the line is empty again and the signal is that of the command.
  pub feed-runs :
      (keys : List Key) (session : S)
      → All IsKey keys
      → HasRun
          (edited [] keys)
          session
          (feed commands (map byte_of keys ++ 13 ∷ []) (editing [] session))
  feed-runs keys session h =
      subst (HasRun (edited [] keys) session)
        (sym (feed-answer commands (map byte_of keys ++ 13 ∷ []) (editing [] session)))
        (answer_keys keys [] session h)
