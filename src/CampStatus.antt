-- ===== src/CampStatus.antt =====
-- packages/pad-telnet/src/camp-status.ts: the vocabulary of the camp status board.
use Prim.Native.String as Text
use omnidat.Prelude.{
  ℕ, String, Bool, true, false, Option, none, some, List, [], ◌∷◌, ◌==◌, ◌||◌, if◌then◌else◌,
  string_eq,
}

-- the codes, the longer ones first
abbrev pub camp_status_codes : List String
camp_status_codes =
    "RADIO OPERATOR AVAILABLE" ∷ "WORKSHOP AT" ∷ "QUIET HOURS" ∷ "NEED SUPPLIES" ∷ "NEED PARTS"
    ∷ "NEED HELP" ∷ "NEED ICE" ∷ "CLOSED" ∷ "OPEN" ∷ []

-- `NormalizedStatus`
pub record NormalizedStatus : Type 0 where
  pub code : Option String
  pub detail : String
  pub known : Bool
  pub formatted : String

-- `startsWith`, `slice` and `trim` are JavaScript's; `upper` is `toUpperCase`, `size` the `length`.
module _ (trim upper : String → String) (starts_with : String → String → Bool) (size : String → ℕ)
    (slice : String → ℕ → String) where
  pub is_status_board : String → Bool
  is_status_board board_id = upper board_id == "STATUS"

  abbrev pub leads : String → String → Bool
  leads trimmed code = upper trimmed == code || starts_with (upper trimmed) (Text.◌++◌ code " ")

  abbrev pub with_detail : String → String → NormalizedStatus
  with_detail code detail = record {
    code = some code;
    detail = detail;
    known = true;
    formatted = if detail == "" then code else Text.◌++◌ code (Text.◌++◌ " — " detail);
  }

  -- the loop over the codes
  pub match_code : List String → String → NormalizedStatus
  match_code [] trimmed = record {
    code = none;
    detail = trimmed;
    known = false;
    formatted = trimmed;
  }
  match_code (code ∷ codes) trimmed =
      if leads trimmed code
      then with_detail code (trim (slice trimmed (size code)))
      else match_code codes trimmed

  pub normalize_status_post : String → NormalizedStatus
  normalize_status_post body = match_code camp_status_codes (trim body)
