-- ===== src/Lifecycle/Activation.antt =====
-- packages/api/src/router/omnidat-persistence.ts: the way of a provisioning request to "active".
use omnidat.Prelude.{
  ℕ, zero, suc, String, true, none, some, List, [], ◌∷◌, ◌≡◌, refl, ◌∙◌, ◌==◌, if◌then◌else◌,
  nat_eq, string_eq,
}
use omnidat.Lifecycle.{
  provisioning_states, index_of, state_at, is_terminal, is_legal_provisioning_transition,
  ProvisioningRow, row_named, status_or_requested, advanced, update_rows,
  persist_provisioning_advance, advance_all,
}
use omnidat.Lifecycle.Advances.{row_named-update_rows}
use omnidat.Lifecycle.Offers.{state_at-index_of, moved}

-- the statuses of a list behind one of them
unfoldable pub behind : List String → String → List String
behind [] s = []
behind (x ∷ xs) s = if x == s then xs else behind xs s

-- whether every step of a run is legal, and where it ends
abbrev IsLegalRun : String → List String → Type 0
IsLegalRun from [] = Unit
IsLegalRun from (to ∷ later) =
    (is_legal_provisioning_transition from to ≡ true) × IsLegalRun to later

abbrev end_of : String → List String → String
end_of from [] = from
end_of from (to ∷ later) = end_of to later

advance_all-end_of :
    (id : String) (statuses : List String) (rows : List ProvisioningRow) (row : ProvisioningRow)
    → row_named id rows ≡ some row
    → IsLegalRun row.status statuses
    → status_or_requested (row_named id (advance_all id statuses rows).1)
      ≡ end_of row.status statuses
unfolding advance_all persist_provisioning_advance
advance_all-end_of id [] rows row h legal = rw h refl
advance_all-end_of id (to ∷ later) rows row h (legal, on) =
    rw (h, legal)
      (advance_all-end_of id later (update_rows id to none rows) (advanced to none row)
        (row_named-update_rows id to rows row h) on)

-- what is behind a status is a legal run to "active"
abbrev IsWay : String → Type 0
IsWay s =
    IsLegalRun s (behind provisioning_states s)
    × (end_of s (behind provisioning_states s) ≡ "active")

state_at-IsWay : (i : ℕ) (s : String) → state_at provisioning_states i ≡ some s → IsWay s
unfolding state_at behind is_legal_provisioning_transition index_of is_terminal
state_at-IsWay zero s h =
    moved IsWay "requested" s ((refl, (refl, (refl, (refl, (refl, (refl, tt)))))), refl) h
state_at-IsWay (suc zero) s h =
    moved IsWay "reviewed" s ((refl, (refl, (refl, (refl, (refl, tt))))), refl) h
state_at-IsWay (suc (suc zero)) s h =
    moved IsWay "approved" s ((refl, (refl, (refl, (refl, tt)))), refl) h
state_at-IsWay (suc (suc (suc zero))) s h =
    moved IsWay "assigned" s ((refl, (refl, (refl, tt))), refl) h
state_at-IsWay (suc (suc (suc (suc zero)))) s h =
    moved IsWay "installed" s ((refl, (refl, tt)), refl) h
state_at-IsWay (suc (suc (suc (suc (suc zero))))) s h =
    moved IsWay "verified" s ((refl, tt), refl) h
state_at-IsWay (suc (suc (suc (suc (suc (suc zero)))))) s h = moved IsWay "active" s (tt, refl) h
state_at-IsWay (suc (suc (suc (suc (suc (suc (suc i))))))) s h = cc

-- A request in the table whose status is one of the sequence, whichever, is active once it is advanced
-- to the statuses behind its own, one after another.
pub advance_all-activates :
    (id : String) (rows : List ProvisioningRow) (row : ProvisioningRow) (i : ℕ)
    → row_named id rows ≡ some row
    → index_of provisioning_states row.status ≡ some i
    → status_or_requested
        (row_named id (advance_all id (behind provisioning_states row.status) rows).1)
      ≡ "active"
advance_all-activates id rows row i h p =
    let way = state_at-IsWay i row.status (state_at-index_of provisioning_states row.status i p) in
    advance_all-end_of id (behind provisioning_states row.status) rows row h way.0 ∙ way.1
