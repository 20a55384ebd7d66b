-- ===== src/Pad/Dispatch.antt =====
-- packages/pad-telnet/src/session.ts: `run`, and the verbs of a board and of a service.
use Prim.Native.String.{◌++◌}
use omnidat.Prelude.{
  String, Option, none, some, List, [], ◌∷◌, ◌==◌, ◌||◌, if◌then◌else◌, string_eq, join, ℤ,
}
use omnidat.Pad.Line.{Commands, said, crlf}
use omnidat.Pad.Terminal.{resolve_profile, translate_echo}
use omnidat.Pad.Client.{BoardDef}
use omnidat.Pad.Messaging.{run_board_read, run_board_post}
use omnidat.Pad.Session.{
  Mode, pad_mode, session_mode, board_mode, ServiceScreen, Session, Config, board_help, verb_of,
  args_of, first_of, given, Reply, upper, ln, pg, pad_prompt, greeting, prompt, line_reply,
  mode_reply, bridged,
}
use omnidat.Pad.Verbs.{say_page, run_pad}

module _ {W : Type 0} (config : Config W) where
  abbrev number_of : Option String → Option ℤ
  number_of none = none
  number_of (some arg) = config.parse_int arg

  unfoldable pub read_board : BoardDef → List String → Session W → Reply W
  read_board b args s = say_page config (
      bridged config
        (λ client. run_board_read config.times client b (number_of (given (first_of args)))) s)

  unfoldable pub post_to_board : BoardDef → List String → Session W → Reply W
  post_to_board b args s =
      let body = join " " args in
      let text =
        if config.is_status_board b.board_id then (config.normalize body).formatted else body in
      if body == ""
      then mode_reply config s "USAGE: POST <TEXT>"
      else say_page config (bridged config (λ client. run_board_post client b text none) s)

  abbrev left_board : Session W → Reply W
  left_board s = line_reply config (record s { mode = pad_mode; board = none }) "CLR DTE C:0 D:0"

  abbrev pub on_board : String → BoardDef → Session W → Reply W
  on_board cmd b s =
      let verb = upper config (verb_of (config.words cmd)) in
      let args = args_of (config.words cmd) in
      if verb == "CLEAR" || (verb == "CLR" || (verb == "BYE"))
      then left_board s
      else if verb == "HELP" || (verb == "?")
      then mode_reply config s board_help
      else if verb == "READ"
      then read_board b args s
      else if verb == "POST"
      then post_to_board b args s
      else mode_reply config s ("CLR NP C:13 D:0 — UNKNOWN BOARD VERB " ++ verb)

  abbrev pub board_or_pad : String → Option BoardDef → Session W → Reply W
  board_or_pad cmd none s =
      let s1 = record s { mode = pad_mode } in (said (ln config s1 (pad_prompt config)), s1)
  board_or_pad cmd (some b) s = on_board cmd b s

  unfoldable pub run_board : String → Session W → Reply W
  run_board cmd s = board_or_pad cmd s.board s

  abbrev served : ServiceScreen → Session W → Reply W
  served screen s =
      if screen.ended
      then (
        said (pg config s screen.page ++ ln config s (crlf ++ pad_prompt config)),
        record s { mode = pad_mode; session_x121 = "" },
      )
      else (said (pg config s screen.page ++ prompt config s), s)

  unfoldable pub run_session : String → Session W → Reply W
  run_session cmd s =
      served
        (config.service_verb s.session_x121 (verb_of (config.words cmd))
          (args_of (config.words cmd)) s.world)
        s

  -- the screen after a change of the terminal
  abbrev repainted : Mode → Session W → String
  repainted session_mode s =
      pg config s (config.connect_screen s.session_x121 s.world).page ++ prompt config s
  repainted board_mode s = ln config s "TERMINAL CHANGED." ++ (crlf ++ prompt config s)
  repainted pad_mode s = greeting config s

  unfoldable pub change_terminal : Option String → Session W → Reply W
  change_terminal id s =
      let s1 = record s { profile = resolve_profile config.terminals id } in
      (said (repainted s1.mode s1), s1)

  abbrev pub in_mode : Mode → String → Session W → Reply W
  in_mode board_mode cmd s = run_board cmd s
  in_mode session_mode cmd s = run_session cmd s
  in_mode pad_mode cmd s = run_pad config cmd s

  unfoldable pub run : String → Session W → Reply W
  run raw s =
      let words = config.words (config.trim raw) in
      if upper config (verb_of words) == "TERM"
      then change_terminal (first_of (args_of words)) s
      else in_mode s.mode (config.trim raw) s

  abbrev pub commands : Commands (Session W)
  commands = record {
    run = run;
    prompt = prompt config;
    echo = λ c s. translate_echo config.terminals (config.terminals.text_of (c ∷ [])) s.profile;
    text_of = config.terminals.text_of;
  }
