-- ===== src/Pad/Telnet.antt =====
-- packages/pad-telnet/src/session.ts: the parser of telnet negotiation inside `feed`.
use omnidat.Prelude.{
  ℕ, Bool, true, false, List, [], ◌∷◌, ◌++◌, leb, nat_eq, ◌==◌, ◌&&◌, if◌then◌else◌,
}

-- the states of the parser
pub data Iac : Type 0 where
  none cmd opt sub : Iac

-- the byte that opens a negotiation
abbrev pub iac_byte : ℕ
iac_byte = 255

abbrev pub is_idle : Iac → Bool
is_idle none = true
is_idle cmd = false
is_idle opt = false
is_idle sub = false

-- The state after a byte of a negotiation.
unfoldable pub negotiate : Iac → ℕ → Iac
negotiate none byte = none
negotiate cmd byte = if byte == 250 then sub else if leb 251 byte && leb byte 254 then opt else none
negotiate opt byte = none
negotiate sub byte = if byte == 240 then none else sub

-- A negotiation as the parser delimits it: a command by itself, a command with its option, or a
-- subnegotiation up to its first byte 240, which is the code of SE.
pub data Negotiation : Type 0 where
  standalone : (command : ℕ) → Negotiation
  option : (command choice : ℕ) → Negotiation
  subnegotiation : (body : List ℕ) → Negotiation

-- the bytes of a negotiation
abbrev pub bytes_of : Negotiation → List ℕ
bytes_of (standalone command) = iac_byte ∷ command ∷ []
bytes_of (option command choice) = iac_byte ∷ command ∷ choice ∷ []
bytes_of (subnegotiation body) = iac_byte ∷ 250 ∷ body ++ 240 ∷ []
