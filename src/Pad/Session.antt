-- ===== src/Pad/Session.antt =====
-- packages/pad-telnet/src/session.ts: the commands of a session, in its three modes.
use Prim.Native.String.{◌++◌}
use omnidat.Prelude.{
  String, Bool, Option, none, some, List, [], ◌∷◌, ◌==◌, if◌then◌else◌, string_eq, ℤ,
}
use omnidat.Pad.Line.{FeedResult, said, crlf}
use omnidat.Pad.Terminal.{
  TerminalProfileId, terminal_profiles, Terminals, translate_line, translate_screen,
}
use omnidat.Pad.Client.{Outcome, value, cleared, thrown, Call, clr_line, BoardDef, Catalog, Bridge}
use omnidat.Pad.Messaging.{Times}
use omnidat.CampStatus.{NormalizedStatus}

pub data Mode : Type 0 where
  pad_mode session_mode board_mode : Mode

-- `RiotEntry`
pub record RiotEntry : Type 0 where
  pub address : String
  pub name : String

-- `ServiceScreen`, as far as the session reads it
pub record ServiceScreen : Type 0 where
  pub page : String
  pub ended : Bool

-- The members of `PadSession` that commands change, and the world that they act on: the bridge and
-- the operational state of the network.
pub record Session (W : Type 0) : Type 0 where
  pub mode : Mode
  pub session_x121 : String
  pub board : Option BoardDef
  pub catalog : Option Catalog
  pub profile : TerminalProfileId
  pub world : W

-- What a session is given, and what it calls. `banner` makes the login banner with its line ends,
-- `omnidat_prompt` the prompt; `execute` is `executeXotCommand` with the line ends of its transcript
-- made CRLF; `connect_screen` and `service_verb` render pages; `to_prompt` addresses the line of the
-- prompt on a page. `words` splits at white space, after which `verb` is the first word.
pub record Config (W : Type 0) : Type 0 where
  pub dte : String
  pub bridge : Option (Bridge W)
  pub riot_enabled : Bool
  pub riot_directory : List RiotEntry
  pub terminals : Terminals
  pub times : Times
  pub banner : String → String
  pub omnidat_prompt : String → String
  pub to_prompt : String
  pub execute : (source command : String) → W → String × W
  pub connect_screen : String → W → ServiceScreen
  pub service_verb : (x121 verb : String) → List String → W → ServiceScreen
  pub local_catalog : Catalog
  pub trim : String → String
  pub words : String → List String
  pub parse_int : String → Option ℤ
  pub is_status_board : String → Bool
  pub normalize : String → NormalizedStatus
  pub status_help : String

abbrev pub pad_help : String
pad_help =
    "VERBS: DIR [NS], LOOKUP <X121>, CALL <X121>, STATUS <X121>, PAD <X121>, BILL <ACCT>, MSG <TO> <TEXT>, MAIL, SENT <RCPT>, RIOT, ATTRACT, TERM <VT100|ADM3A|TTY33>, HELP, CLEAR"

abbrev pub board_help : String
board_help = "BOARD VERBS: READ [AFTER], POST <TEXT>, TERM <ID>, CLEAR"

-- `[verb = "", ...args]`
abbrev pub verb_of : List String → String
verb_of [] = ""
verb_of (verb ∷ args) = verb

abbrev pub args_of : List String → List String
args_of [] = []
args_of (verb ∷ args) = args

abbrev pub first_of : List String → Option String
first_of [] = none
first_of (arg ∷ args) = some arg

-- `args[0]` where it is truthy
abbrev pub given : Option String → Option String
given none = none
given (some arg) = if arg == "" then none else some arg

-- text that ends a buffer, and the state after it
abbrev pub Reply : Type 0 → Type 0
Reply W = FeedResult × Session W

module _ {W : Type 0} (config : Config W) where
  abbrev pub upper : String → String
  upper = config.terminals.upper

  -- `ln` and `pg`
  unfoldable pub ln : Session W → String → String
  ln s text = translate_line config.terminals text s.profile

  unfoldable pub pg : Session W → String → String
  pg s page = translate_screen config.terminals page s.profile

  abbrev pub pad_prompt : String
  pad_prompt = config.omnidat_prompt config.dte

  unfoldable pub greeting : Session W → String
  greeting s = ln s (
      config.banner config.dte
      ++ (crlf
          ++ ("TERMINAL "
              ++ (upper (terminal_profiles s.profile).name
                  ++ (" — TERM TO CHANGE" ++ (crlf ++ (crlf ++ pad_prompt)))))))

  abbrev board_prompt : Session W → Option BoardDef → String
  board_prompt s none = ln s pad_prompt
  board_prompt s (some b) = ln s ("/" ++ (b.board_id ++ "/ BOARD> "))

  abbrev prompt_in : Mode → Session W → String
  prompt_in board_mode s = board_prompt s s.board
  prompt_in session_mode s =
      if (terminal_profiles s.profile).cursor_addressing
      then pg s (config.to_prompt ++ "CMD> ")
      else ln s "CMD> "
  prompt_in pad_mode s = ln s pad_prompt

  unfoldable pub prompt : Session W → String
  prompt s = prompt_in s.mode s

  abbrev resume_in : Mode → Session W → String
  resume_in pad_mode s = ln s pad_prompt
  resume_in session_mode s = prompt s
  resume_in board_mode s = prompt s

  pub resume : Session W → String
  resume s = resume_in s.mode s

  -- what a line says, before the PAD's prompt
  abbrev pub line_reply : Session W → String → Reply W
  line_reply s text = (said (ln s (text ++ (crlf ++ pad_prompt))), s)

  -- what a line says, before the prompt of the mode
  abbrev pub mode_reply : Session W → String → Reply W
  mode_reply s text = (said (ln s (text ++ crlf) ++ prompt s), s)

  abbrev line_of : Outcome String → String
  line_of (value line) = line
  line_of (cleared c) = clr_line c
  line_of thrown = "CLR DER C:9 D:0"

  abbrev settled : Session W → Outcome String × W → String × Session W
  settled s (outcome, w) = (line_of outcome, record s { world = w })

  abbrev bridged_by :
      Option (Bridge W) → (Bridge W → Call W String) → Session W → String × Session W
  bridged_by none call s = ("CLR DER C:9 D:0", s)
  bridged_by (some b) call s = settled s (call b s.world)

  -- A call of the bridge as a line: a failure is its CLR line.
  unfoldable pub bridged : (Bridge W → Call W String) → Session W → String × Session W
  bridged call s = bridged_by config.bridge call s

  abbrev pub fetched : Session W → Outcome Catalog × W → Option Catalog × Session W
  fetched s (value c, w) = (some c, record s { catalog = some c; world = w })
  fetched s (cleared e, w) =
      (some config.local_catalog, record s { catalog = some config.local_catalog; world = w })
  fetched s (thrown, w) =
      (some config.local_catalog, record s { catalog = some config.local_catalog; world = w })

  abbrev catalog_by : Option Catalog → Option (Bridge W) → Session W → Option Catalog × Session W
  catalog_by (some c) b s = (some c, s)
  catalog_by none none s = (none, s)
  catalog_by none (some b) s = fetched s (b.boards s.world)

  unfoldable pub ensure_catalog : Session W → Option Catalog × Session W
  ensure_catalog s = catalog_by s.catalog config.bridge s
