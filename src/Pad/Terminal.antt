-- ===== src/Pad/Terminal.antt =====
-- packages/operator-core/src/terminal-profiles.ts: the personalities of terminals.
use Prim.Native.String as Text
use omnidat.Prelude.{
  ℕ, String, Bool, true, false, Option, List, map, get_or, ◌==◌, ◌||◌, if◌then◌else◌, string_eq,
  join,
}

-- `TerminalProfileId`
pub data TerminalProfileId : Type 0 where
  vt100 adm3a tty33 : TerminalProfileId

-- `TerminalProfile`
pub record TerminalProfile : Type 0 where
  pub id : TerminalProfileId
  pub name : String
  pub cols : ℕ
  pub rows : ℕ
  pub cursor_addressing : Bool
  pub attributes : Bool
  pub uppercase_only : Bool

abbrev pub terminal_profiles : TerminalProfileId → TerminalProfile
terminal_profiles vt100 = record {
  id = vt100;
  name = "DEC VT100";
  cols = 80;
  rows = 24;
  cursor_addressing = true;
  attributes = true;
  uppercase_only = false;
}
terminal_profiles adm3a = record {
  id = adm3a;
  name = "Lear Siegler ADM-3A";
  cols = 80;
  rows = 24;
  cursor_addressing = true;
  attributes = false;
  uppercase_only = false;
}
terminal_profiles tty33 = record {
  id = tty33;
  name = "Teletype ASR-33";
  cols = 72;
  rows = 24;
  cursor_addressing = false;
  attributes = false;
  uppercase_only = true;
}

-- What the translations use of JavaScript and of the emulator: `lower` and `upper` change case,
-- `lines` splits at line ends, `clip` is `slice(0, n)`, `text_of` makes a text of a character code,
-- `strip_ansi` removes escapes, `repaint` re-emits the grid of a page for the ADM-3A, and `grid` is
-- the rows of a page without the blank ones at its end.
pub record Terminals : Type 0 where
  pub lower : String → String
  pub upper : String → String
  pub lines : String → List String
  pub clip : ℕ → String → String
  pub text_of : List ℕ → String
  pub strip_ansi : String → String
  pub repaint : String → String
  pub grid : String → List String

module _ (t : Terminals) where
  unfoldable pub resolve_profile : Option String → TerminalProfileId
  resolve_profile id =
      let key = t.lower (get_or id "") in
      if key == "adm3a" || (key == "adm-3a")
      then adm3a
      else if key == "tty33" || (key == "asr33" || (key == "asr-33" || (key == "tty")))
      then tty33
      else vt100

  abbrev pub print_line : String → String
  print_line l = t.clip 72 (t.upper l)

  pub translate_line : String → TerminalProfileId → String
  translate_line text vt100 = text
  translate_line text adm3a = t.strip_ansi text
  translate_line text tty33 = join "\r\n" (map print_line (t.lines (t.strip_ansi text)))

  pub translate_screen : String → TerminalProfileId → String
  translate_screen page vt100 = page
  translate_screen page adm3a = t.repaint page
  translate_screen page tty33 = Text.◌++◌ (join "\r\n" (map print_line (t.grid page))) "\r\n"

  pub translate_echo : String → TerminalProfileId → String
  translate_echo ch vt100 = ch
  translate_echo ch adm3a = ch
  translate_echo ch tty33 = t.upper ch
