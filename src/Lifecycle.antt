-- ===== src/Lifecycle.antt =====
-- packages/api/src/router/omnidat-persistence.ts: the lifecycle of a provisioning request.
pub mod Advances
pub mod Offers
pub mod Activation
use omnidat.Prelude.{
  ℕ, zero, suc, ◌+◌, String, Bool, true, false, not, Option, none, some, List, [], ◌∷◌, ◌==◌,
  if◌then◌else◌, ltb, find, includes, nat_eq, string_eq,
}
use mathlib.Core.Option as Option

abbrev pub provisioning_states : List String
provisioning_states =
    "requested" ∷ "reviewed" ∷ "approved" ∷ "assigned" ∷ "installed" ∷ "verified" ∷ "active" ∷ []

abbrev pub terminal_states : List String
terminal_states = "suspended" ∷ "revoked" ∷ []

-- `indexOf`, `none` for -1
unfoldable pub index_of : List String → String → Option ℕ
index_of [] s = none
index_of (x ∷ xs) s = if x == s then some 0 else Option.map suc (index_of xs s)

unfoldable pub state_at : List String → ℕ → Option String
state_at [] n = none
state_at (x ∷ xs) zero = some x
state_at (x ∷ xs) (suc n) = state_at xs n

unfoldable pub is_terminal : String → Bool
is_terminal s = includes terminal_states s

abbrev pub follows : Option ℕ → Option ℕ → Bool
follows none to_index = false
follows (some i) none = false
follows (some i) (some j) = j == i + 1

unfoldable pub is_legal_provisioning_transition : (from to : String) → Bool
is_legal_provisioning_transition from to =
    if is_terminal to
    then not (is_terminal from)
    else follows (index_of provisioning_states from) (index_of provisioning_states to)

abbrev pub next_at : Option ℕ → Option String
next_at none = none
next_at (some i) = if ltb i 6 then state_at provisioning_states (i + 1) else none

unfoldable pub next_provisioning_status : String → Option String
next_provisioning_status from = next_at (index_of provisioning_states from)

-- a row of the table, as far as an advance reads and writes it
pub record ProvisioningRow : Type 0 where
  pub id : String
  pub status : String
  pub verification_transcript : Option String

abbrev pub row_named : String → List ProvisioningRow → Option ProvisioningRow
row_named id rows = find (λ (r : ProvisioningRow). r.id == id) rows

abbrev pub status_or_requested : Option ProvisioningRow → String
status_or_requested none = "requested"
status_or_requested (some row) = row.status

-- the values of the update
abbrev pub advanced : String → Option String → ProvisioningRow → ProvisioningRow
advanced to transcript row = record row {
  status = to;
  verification_transcript = if to == "verified" then transcript else row.verification_transcript;
}

abbrev pub update_rows :
    String → String → Option String → List ProvisioningRow → List ProvisioningRow
update_rows id to transcript [] = []
update_rows id to transcript (row ∷ rows) =
    (if row.id == id then advanced to transcript row else row) ∷ update_rows id to transcript rows

-- `persistProvisioningAdvance`: whether the transition is legal, and the rows after it
unfoldable pub persist_provisioning_advance :
    (id to : String) → Option String → List ProvisioningRow → Bool × List ProvisioningRow
persist_provisioning_advance id to transcript rows =
    if is_legal_provisioning_transition (status_or_requested (row_named id rows)) to
    then (true, update_rows id to transcript rows)
    else (false, rows)

-- A run of advances of one request, to the statuses of a list: how many of them are made, and the rows
-- at its end.
unfoldable pub advance_all : String → List String → List ProvisioningRow → ℕ × List ProvisioningRow
advance_all id [] rows = (0, rows)
advance_all id (to ∷ later) rows =
    let (made, rows1) = persist_provisioning_advance id to none rows in
    let (count, rows2) = advance_all id later rows1 in ((if made then suc count else count), rows2)
