-- ===== src/Pad/Modes.antt =====
-- packages/pad-telnet/src/session.ts: every buffer keeps mode, board and service in agreement.
use omnidat.Prelude.{
  ℕ, String, join, Option, none, some, List, ◌≡◌, ◌≢◌, refl, ◌==◌, ◌||◌, if◌then◌else◌, if_either,
  string_eq,
}
use omnidat.Pad.Line.{Editor, feed}
use omnidat.Pad.Editing.{feed_session}
use omnidat.Pad.Client.{BoardDef}
use omnidat.Pad.Messaging.{run_board_post}
use omnidat.Pad.Session.{
  Mode, pad_mode, session_mode, board_mode, Session, Config, first_of, args_of, verb_of, upper,
}
use omnidat.Pad.Dispatch.{
  read_board, post_to_board, run_board, run_session, change_terminal, run, commands, on_board,
  board_or_pad, in_mode,
}
use omnidat.Pad.Agreement.{Agreed, Agrees, Kept, bridged-Agrees, run_pad-Agrees}

module _ {W : Type 0} (config : Config W) where
  read_board-Agrees :
      (b : BoardDef) (args : List String) (s : Session W)
      → Agrees s
      → Kept config (read_board config b args s)
  unfolding read_board
  read_board-Agrees b args s h = record { kept = bridged-Agrees config _ s h }

  post_to_board-Agrees :
      (b : BoardDef) (args : List String) (s : Session W)
      → Agrees s
      → Kept config (post_to_board config b args s)
  unfolding post_to_board
  post_to_board-Agrees b args s h =
      let body = join " " args in
      let text =
        if config.is_status_board b.board_id then (config.normalize body).formatted else body in
      if_either (Kept config) (body == "") _ _ (λ _. record { kept = h })
        (λ _. record {
          kept = bridged-Agrees config (λ client. run_board_post client b text none) s h;
        })

  on_board-Agrees :
      (cmd : String) (b : BoardDef) (s : Session W)
      → Agreed board_mode s.board s.session_x121
      → Agrees s
      → Kept config (on_board config cmd b s)
  on_board-Agrees cmd b s here h =
      let verb = upper config (verb_of (config.words cmd)) in
      let args = args_of (config.words cmd) in
      if_either (Kept config) (verb == "CLEAR" || (verb == "CLR" || (verb == "BYE"))) _ _
        (λ _. record { kept = (refl, here.1) })
        (λ _.
          if_either (Kept config) (verb == "HELP" || (verb == "?")) _ _ (λ _. record { kept = h })
            (λ _.
              if_either (Kept config) (verb == "READ") _ _ (λ _. read_board-Agrees b args s h)
                (λ _.
                  if_either (Kept config) (verb == "POST") _ _
                    (λ _. post_to_board-Agrees b args s h) (λ _. record { kept = h }))))

  board_or_pad-Agrees :
      (cmd : String) (o : Option BoardDef) (s : Session W)
      → o ≢ none
      → Agreed board_mode s.board s.session_x121
      → Agrees s
      → Kept config (board_or_pad config cmd o s)
  board_or_pad-Agrees cmd none s some_board here h = absurd (some_board refl)
  board_or_pad-Agrees cmd (some b) s some_board here h = on_board-Agrees cmd b s here h

  run_board-Agrees :
      (cmd : String) (s : Session W)
      → Agreed board_mode s.board s.session_x121
      → Agrees s
      → Kept config (run_board config cmd s)
  unfolding run_board
  run_board-Agrees cmd s here h = board_or_pad-Agrees cmd s.board s here.0 here h

  run_session-Agrees :
      (cmd : String) (s : Session W)
      → s.board ≡ none
      → Agrees s
      → Kept config (run_session config cmd s)
  unfolding run_session
  run_session-Agrees cmd s empty h =
      let words = config.words cmd in
      if_either (Kept config)
        (config.service_verb s.session_x121 (verb_of words) (args_of words) s.world).ended _ _
        (λ _. record { kept = (empty, refl) }) (λ _. record { kept = h })

  session-Agreed :
      (s : Session W)
      → s.mode ≡ session_mode
      → Agrees s
      → Agreed session_mode s.board s.session_x121
  session-Agreed s m h = rw m at h

  board-Agreed :
      (s : Session W) → s.mode ≡ board_mode → Agrees s → Agreed board_mode s.board s.session_x121
  board-Agreed s m h = rw m at h

  in_mode-Agrees :
      (m : Mode) (cmd : String) (s : Session W)
      → s.mode ≡ m
      → Agrees s
      → Kept config (in_mode config m cmd s)
  in_mode-Agrees pad_mode cmd s m h = run_pad-Agrees config cmd s m h
  in_mode-Agrees session_mode cmd s m h = run_session-Agrees cmd s (session-Agreed s m h).0 h
  in_mode-Agrees board_mode cmd s m h = run_board-Agrees cmd s (board-Agreed s m h) h

  change_terminal-Agrees :
      (id : Option String) (s : Session W) → Agrees s → Kept config (change_terminal config id s)
  unfolding change_terminal
  change_terminal-Agrees id s h = record { kept = h }

  run-Agrees : (raw : String) (s : Session W) → Agrees s → Agrees (run config raw s).1
  unfolding run
  run-Agrees raw s h =
      let words = config.words (config.trim raw) in
      (if_either (Kept config) (upper config (verb_of words) == "TERM") _ _
        (λ _. change_terminal-Agrees (first_of (args_of words)) s h)
        (λ _. in_mode-Agrees s.mode (config.trim raw) s refl h)).kept

  -- Whatever bytes arrive, a session is on a board exactly in the board's mode and has the address of
  -- a service, never the empty text, exactly in the session's mode.
  pub feed-Agrees :
      (bytes : List ℕ) (e : Editor (Session W))
      → Agrees e.session
      → Agrees (feed (commands config) bytes e).1.session
  feed-Agrees bytes e h = feed_session (commands config) Agrees run-Agrees bytes e h
