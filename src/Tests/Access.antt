-- ===== src/Tests/Access.antt =====
-- Runs of the operator's gate, of the version of a request, and of the sync status.
use omnidat.Prelude.{String, true, false, none, some, List, [], ◌∷◌}
use omnidat.Roles.Operator.{OperatorRoleRow}
use omnidat.Sync.Sources.{SourceView}

abbrev same_text : String → String
same_text s = s

abbrev office : List OperatorRoleRow
office =
    (record { user_id = some "u1"; role = some "auditor"; active = none })
    ∷ (record { user_id = some "u1"; role = some "noc-operator"; active = some false })
    ∷ []

-- the kit after the push of Tests/Sync, which ended at time 5
abbrev kit_view : SourceView
kit_view = record {
  source_id = "kit";
  source_kind = "field-kit";
  last_pushed_seq = 2;
  last_sync_at = some 5;
  active = true;
}
