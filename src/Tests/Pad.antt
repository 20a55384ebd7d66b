-- ===== src/Tests/Pad.antt =====
-- Runs of a PAD session with no bridge behind it.
use Prim.Native.Char.{code}
use Prim.Native.String as Text
use Prim.Native.String.{char_at}
use mathlib.Core.List.{◌++◌}
use omnidat.Prelude.{
  ℕ, ◌-◌, String, true, false, none, some, List, [], ◌∷◌, ◌≡◌, refl, if◌then◌else◌, ◌==◌, nat_eq,
  string_eq, All, arith, ◌≢◌, pos,
}
use omnidat.Pad.Telnet.{Negotiation, subnegotiation, bytes_of}
use omnidat.Pad.Line.{Editor, feed}
use omnidat.Pad.Segments.{in_turn, feed-append}
use omnidat.Pad.Editing.{IsPrintable, feed-strips, feed-IsClean}
use omnidat.Pad.Typing.{typed, erase, editing, HasRun, feed-runs}
use omnidat.Pad.Terminal.{vt100, Terminals}
use omnidat.Pad.Messaging.{Times}
use omnidat.Pad.Session.{pad_mode, Session, Config}
use omnidat.Pad.Dispatch.{commands}
use omnidat.Pad.Modes.{feed-Agrees}
use omnidat.Pad.Agreement.{Agrees}

abbrev same_text : String → String
same_text s = s

abbrev one_line : String → List String
one_line s = s ∷ []

-- the printable characters, from the space on
abbrev printable : String
printable =
    " !\"#$%&'()*+,-./0123456789:;<=>?@ABCDEFGHIJKLMNOPQRSTUVWXYZ[\\]^_`abcdefghijklmnopqrstuvwxyz{|}~"

abbrev text_of : List ℕ → String
text_of [] = ""
text_of (c ∷ cs) = Text.◌∷◌ (char_at printable (c - 32)) (text_of cs)

-- the words between spaces, after the text of the word so far
abbrev words_from : String → String → List String
words_from word Text.[] = word ∷ []
words_from word (Text.◌∷◌ c s) =
    let ends = code c == 32 in
    let rest = words_from (if ends then "" else Text.◌++◌ word (Text.◌∷◌ c "")) s in
    if ends then word ∷ rest else rest

abbrev terminals : Terminals
terminals = record {
  lower = same_text;
  upper = same_text;
  lines = one_line;
  clip = λ n s. s;
  text_of = text_of;
  strip_ansi = same_text;
  repaint = same_text;
  grid = one_line;
}

abbrev times : Times
times = record {
  hhmm = λ ms. "00:00";
  digits = λ s. none;
  has_t = λ s. false;
  clock = same_text;
  size = λ s. 0;
}

-- one service of the network
abbrev atm_x121 : String
atm_x121 = "311088030100"

abbrev config : Config ℕ
config = record {
  dte = "311088000001";
  bridge = none;
  riot_enabled = false;
  riot_directory = [];
  terminals = terminals;
  times = times;
  banner = λ x121. "OMNIDAT";
  omnidat_prompt = λ x121. "OMNIDAT> ";
  to_prompt = "";
  execute = λ source cmd w. ("OK", w);
  connect_screen =
      λ x121 w. record { page = "ATM"; ended = if x121 == atm_x121 then false else true };
  service_verb =
      λ x121 verb args w. record { page = verb; ended = if verb == "CLEAR" then true else false };
  local_catalog = record { boards = []; mail = none };
  trim = same_text;
  words = words_from "";
  parse_int = λ s. some (pos 0);
  is_status_board = λ id. false;
  normalize = λ body. record { code = none; detail = body; known = false; formatted = body };
  status_help = "";
}

abbrev idle : Session ℕ
idle = record {
  mode = pad_mode;
  session_x121 = "";
  board = none;
  catalog = none;
  profile = vt100;
  world = 0;
}

abbrev fresh : Editor (Session ℕ)
fresh = editing (commands config) [] idle

-- `DIR` and a return, and half a line more
abbrev dir_line : List ℕ
dir_line = 68 ∷ 73 ∷ 82 ∷ 13 ∷ 72 ∷ []

abbrev help_rest : List ℕ
help_rest = 69 ∷ 76 ∷ 80 ∷ 13 ∷ []

feed-append_example :
    feed (commands config) (dir_line ++ help_rest) fresh
    ≡ in_turn
        (commands config)
        (feed (commands config) dir_line fresh)
        (feed (commands config) help_rest)
feed-append_example = feed-append (commands config) dir_line help_rest fresh

-- a terminal's type, as telnet sends it
abbrev terminal_type : Negotiation
terminal_type = subnegotiation (24 ∷ 0 ∷ 86 ∷ 84 ∷ [])

not_se : (n : ℕ) → (n == 240) ≡ false → n ≢ 240
not_se n h = ground (arith, h)

feed-strips_example :
    feed (commands config) (bytes_of terminal_type ++ dir_line) fresh
    ≡ feed (commands config) dir_line fresh
feed-strips_example =
    feed-strips (commands config) terminal_type dir_line fresh
      (not_se 24 refl, (not_se 0 refl, (not_se 86 refl, (not_se 84 refl, tt))))

feed-IsClean_example :
    All IsPrintable (feed (commands config) (255 ∷ 251 ∷ 1 ∷ dir_line) fresh).1.line
feed-IsClean_example = feed-IsClean (commands config) (255 ∷ 251 ∷ 1 ∷ dir_line) fresh tt

feed-runs_example :
    HasRun
      (commands config)
      (68 ∷ 73 ∷ 82 ∷ [])
      idle
      (feed (commands config) (68 ∷ 88 ∷ 8 ∷ 73 ∷ 82 ∷ 13 ∷ []) fresh)
feed-runs_example =
    feed-runs (commands config) (typed 68 ∷ typed 88 ∷ erase ∷ typed 73 ∷ typed 82 ∷ []) idle (
      (omega arith, omega arith),
      (
        (omega arith, omega arith),
        (tt, ((omega arith, omega arith), ((omega arith, omega arith), tt))),
      ),
    )

feed-Agrees_example : Agrees (feed (commands config) dir_line fresh).1.session
feed-Agrees_example = feed-Agrees config dir_line fresh (refl, refl)
