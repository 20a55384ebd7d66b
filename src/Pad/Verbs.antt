-- ===== src/Pad/Verbs.antt =====
-- packages/pad-telnet/src/session.ts: `run` and the verbs of the three modes.
use Prim.Native.String.{◌++◌}
use omnidat.Prelude.{
  String, Bool, true, false, Option, none, some, List, [], ◌∷◌, map, find, ◌==◌, ◌||◌,
  if◌then◌else◌, string_eq, join,
}
use omnidat.Pad.Line.{said, crlf}
use omnidat.Pad.Terminal.{TerminalProfileId, vt100, adm3a, tty33}
use omnidat.Pad.Client.{BoardDef, Catalog}
use omnidat.Pad.Messaging.{
  Resolved, board, mail, resolve_catalog, run_msg, run_mail, run_sent, run_board_read,
}
use omnidat.Pad.Session.{
  session_mode, board_mode, RiotEntry, ServiceScreen, Session, Config, pad_help, board_help,
  verb_of, args_of, first_of, given, Reply, upper, ln, pg, pad_prompt, prompt, line_reply,
  mode_reply, bridged, ensure_catalog,
}

abbrev pub is_vt100 : TerminalProfileId → Bool
is_vt100 vt100 = true
is_vt100 adm3a = false
is_vt100 tty33 = false

abbrev pub is_clear : String → Bool
is_clear verb = verb == "CLEAR" || (verb == "BYE" || (verb == "QUIT" || (verb == "CLR")))

module _ {W : Type 0} (config : Config W) where
  -- what a bridged line says, before the PAD's prompt
  abbrev say_line : String × Session W → Reply W
  say_line (line, s) = line_reply config s line

  -- what a bridged line says, before the prompt of the board
  abbrev pub say_page : String × Session W → Reply W
  say_page (line, s) = mode_reply config s line

  unfoldable pub read_mail : Session W → Reply W
  read_mail s = say_line (bridged config (λ b. run_mail config.times b config.dte) s)

  abbrev clear_reply : Session W → Reply W
  clear_reply s = (
    record (said (ln config s ("CLEARED." ++ (crlf ++ ("CLR DTE C:0 D:0" ++ crlf))))) {
      close = true;
    },
    s,
  )

  unfoldable pub attract : Session W → Reply W
  attract s =
      if is_vt100 s.profile
      then (record (said "") { start_attract = true }, s)
      else line_reply config s "SCREENSAVER REQUIRES VT100 (TERM VT100)."

  unfoldable pub relay : Session W → Reply W
  relay s =
      if config.riot_enabled
      then (
        record (said
            (ln config s ("CONNECTING TO RIOT DISCORD GATEWAY — QUIT TO RETURN" ++ crlf))) {
              start_relay = true;
            },
        s,
      )
      else line_reply config s "RIOT GATEWAY NOT CONFIGURED"

  -- `to` and the body of a message, or its usage
  abbrev send_given : Option String → String → Session W → Reply W
  send_given none body s = line_reply config s "USAGE: MSG <TO-X121> <TEXT>"
  send_given (some to) body s =
      if body == ""
      then line_reply config s "USAGE: MSG <TO-X121> <TEXT>"
      else say_line (bridged config (λ b. run_msg b config.dte to body) s)

  unfoldable pub send_message : List String → Session W → Reply W
  send_message args s = send_given (given (first_of args)) (join " " (args_of args)) s

  abbrev sent_given : Option String → Session W → Reply W
  sent_given none s = line_reply config s "USAGE: SENT <RCPT>"
  sent_given (some rcpt) s = say_line (bridged config (λ b. run_sent b rcpt) s)

  unfoldable pub show_sent : List String → Session W → Reply W
  show_sent args s = sent_given (given (first_of args)) s

  -- the page of a board that a session enters, and its verbs
  abbrev entered : BoardDef → String × Session W → Reply W
  entered b (page, s) =
      let help =
        if config.is_status_board b.board_id
        then board_help ++ (crlf ++ config.status_help)
        else board_help in
      (said (ln config s (page ++ (crlf ++ (help ++ crlf))) ++ prompt config s), s)

  unfoldable pub enter_board : BoardDef → Session W → Reply W
  enter_board b s = entered b (
      bridged config (λ client. run_board_read config.times client b none)
        (record s { mode = board_mode; board = some b }))

  abbrev connected : String → ServiceScreen → Session W → Reply W
  connected address screen s =
      if screen.ended
      then (said (pg config s screen.page ++ ln config s (crlf ++ pad_prompt config)), s)
      else (let s1 = record s { mode = session_mode; session_x121 = address } in
          (said (pg config s1 screen.page ++ prompt config s1), s1))

  unfoldable pub connect : String → Session W → Reply W
  connect address s = connected address (config.connect_screen address s.world) s

  abbrev pub reached : String → Option Resolved → Session W → Reply W
  reached address none s = connect address s
  reached address (some mail) s = read_mail s
  reached address (some (board b)) s = enter_board b s

  abbrev pub found_in : String → Option Catalog → Option Resolved
  found_in address none = none
  found_in address (some catalog) = resolve_catalog catalog address

  abbrev relayed : String → Option RiotEntry → Session W → Reply W
  relayed address (some entry) s = (
    record (said (
        ln config s (
          "CONNECTING TO "
          ++ (upper config entry.name ++ (" (RIOT/DISCORD) — QUIT TO RETURN" ++ crlf))))) {
            start_relay = true;
            relay_initial = some ("CALL " ++ address);
          },
    s,
  )
  relayed address none s =
      let (catalog, s1) = ensure_catalog config s in reached address (found_in address catalog) s1

  unfoldable pub call : String → Session W → Reply W
  call address s =
      relayed address (find (λ (e : RiotEntry). e.address == address) config.riot_directory) s

  abbrev riot_lines : List RiotEntry → String
  riot_lines [] = ""
  riot_lines (e ∷ es) =
      crlf
      ++ join crlf (
          map (λ (r : RiotEntry). r.address ++ ("  " ++ (upper config r.name ++ " (RIOT/DISCORD)")))
            (e ∷ es))

  abbrev executed : String → String × W → Session W → Reply W
  executed verb (transcript, w) s =
      line_reply config (record s { world = w })
        (if verb == "DIR" then transcript ++ riot_lines config.riot_directory else transcript)

  unfoldable pub execute : (verb cmd : String) → Session W → Reply W
  execute verb cmd s = executed verb (config.execute config.dte cmd s.world) s

  -- the verbs that read the network, and CALL with an address
  abbrev pub call_or_execute : String → Option String → String → Session W → Reply W
  call_or_execute verb none cmd s = execute verb cmd s
  call_or_execute verb (some address) cmd s =
      if verb == "CALL" then call address s else execute verb cmd s

  unfoldable pub run_pad : String → Session W → Reply W
  run_pad cmd s =
      let verb = upper config (verb_of (config.words cmd)) in
      let args = args_of (config.words cmd) in
      if cmd == ""
      then (said (ln config s (pad_prompt config)), s)
      else if is_clear verb
      then clear_reply s
      else if verb == "ATTRACT"
      then attract s
      else if verb == "HELP" || (verb == "?")
      then line_reply config s pad_help
      else if verb == "RIOT"
      then relay s
      else if verb == "MSG"
      then send_message args s
      else if verb == "MAIL"
      then read_mail s
      else if verb == "SENT"
      then show_sent args s
      else call_or_execute verb (given (first_of args)) cmd s
