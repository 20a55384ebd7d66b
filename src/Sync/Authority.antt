-- ===== src/Sync/Authority.antt =====
-- `authorityFromRows`, `epochHolderRow` and `fenceForEpoch`: who may write at which epoch.
use omnidat.Prelude.{
  ℕ, ◌+◌, String, Bool, true, false, Option, none, some, get_or, List, [], ◌∷◌, ◌==◌, ◌&&◌, ltb,
  if◌then◌else◌, filter, find, nat_eq, string_eq, option_eq,
}
use omnidat.Sync.Rows.{Authority, AuthorityRow}
pub mod Laws

abbrev pub default_authority : Authority
default_authority = record {
  holder = "cloud";
  holder_source_id = "cloud";
  epoch = 0;
  fence_seq = none;
}

abbrev pub of_event : Option String → AuthorityRow → Bool
of_event event_id row = row.event_id == event_id

-- `(row.epoch ?? 0) > (best?.epoch ?? -Infinity)`
abbrev pub exceeds : ℕ → Option ℕ → Bool
exceeds epoch none = true
exceeds epoch (some best) = ltb best epoch

abbrev pub best_epoch : Option AuthorityRow → Option ℕ
best_epoch none = none
best_epoch (some row) = row.epoch

abbrev pub better : Option AuthorityRow → AuthorityRow → Option AuthorityRow
better best row = if exceeds (get_or row.epoch 0) (best_epoch best) then some row else best

-- the `reduce` over the rows of the event
unfoldable pub latest_row : Option AuthorityRow → List AuthorityRow → Option AuthorityRow
latest_row best [] = best
latest_row best (row ∷ rows) = latest_row (better best row) rows

abbrev pub to_authority : Option AuthorityRow → Authority
to_authority none = default_authority
to_authority (some current) = record {
  holder = get_or current.holder "cloud";
  holder_source_id = get_or current.holder_source_id "cloud";
  epoch = get_or current.epoch 0;
  fence_seq = current.fence_seq;
}

unfoldable pub authority_from_rows : List AuthorityRow → Option String → Authority
authority_from_rows rows event_id = to_authority (latest_row none (filter (of_event event_id) rows))

unfoldable pub epoch_holder_row : List AuthorityRow → Option String → ℕ → Option AuthorityRow
epoch_holder_row rows event_id epoch =
    find (λ row. of_event event_id row && (row.epoch == some epoch)) rows

abbrev pub row_fence : Option AuthorityRow → Option ℕ
row_fence none = none
row_fence (some row) = row.fence_seq

unfoldable pub fence_for_epoch : List AuthorityRow → Option String → ℕ → Option ℕ
fence_for_epoch rows event_id epoch = row_fence (epoch_holder_row rows event_id (epoch + 1))
