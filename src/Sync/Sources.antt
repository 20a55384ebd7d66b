-- ===== src/Sync/Sources.antt =====
-- `verifySyncToken`, `listSyncSources`, `registerSyncSource`: the sources and their tokens.
pub mod Tokens
use omnidat.Prelude.{
  ℕ, String, Bool, true, false, not, Option, none, some, get_or, List, [], ◌∷◌, ◌++◌, map, ◌==◌,
  ◌&&◌, if◌then◌else◌, find, string_eq, option_eq, ◌||◌,
}
use omnidat.Sync.Rows.{
  AuditEvent, source_registered, source_rotated, SyncSourceRow, Ops, Db, Driver, inserted,
}

-- `row.active !== false`
abbrev pub is_active : SyncSourceRow → Bool
is_active row = elim row.active [ some false ↦ false | _ ↦ true ]

-- `sourceId === undefined || row.sourceId === sourceId`
abbrev pub is_named : Option String → SyncSourceRow → Bool
is_named none row = true
is_named (some source_id) row = row.source_id == some source_id

-- what `listSyncSources` returns for a row
pub record SourceView : Type 0 where
  pub source_id : String
  pub source_kind : String
  pub last_pushed_seq : ℕ
  pub last_sync_at : Option ℕ
  pub active : Bool

unfoldable pub source_view : SyncSourceRow → SourceView
source_view row = record {
  source_id = get_or row.source_id "";
  source_kind = get_or row.source_kind "field-kit";
  last_pushed_seq = get_or row.last_pushed_seq 0;
  last_sync_at = row.last_sync_at;
  active = is_active row;
}

unfoldable pub list_sync_sources : {D : Type 0} → Option (Db D) → List SourceView
list_sync_sources none = []
list_sync_sources (some db) = map source_view db.sources

-- the `input` of a registration
pub record Registration : Type 0 where
  pub source_id : String
  pub source_kind : Option String
  pub operator_id : String

pub record Registered : Type 0 where
  pub source_id : String
  pub source_kind : String
  pub sync_token : String
  pub rotated : Bool

-- the update of the rows with the source's id
unfoldable pub rotate : Registration → String → List SyncSourceRow → List SyncSourceRow
rotate input token_hash [] = []
rotate input token_hash (row ∷ rows) =
    (if row.source_id == some input.source_id
      then record row {
        token_hash = some token_hash;
        source_kind = some (get_or input.source_kind "field-kit");
        active = some true;
      }
      else row)
    ∷ rotate input token_hash rows

abbrev pub new_source : Registration → String → SyncSourceRow
new_source input token_hash = record {
  source_id = some input.source_id;
  source_kind = some (get_or input.source_kind "field-kit");
  token_hash = some token_hash;
  last_pushed_seq = some 0;
  last_sync_at = none;
  active = some true;
}

unfoldable pub is_registered : String → List SyncSourceRow → Bool
is_registered source_id [] = false
is_registered source_id (row ∷ rows) =
    row.source_id == some source_id || is_registered source_id rows

-- `hash` is SHA-256 of a text, in hexadecimal.
module _ (hash : String → String) where
  -- `none` is the error "invalid sync token"
  pub verify_sync_token :
      {D : Type 0} → Option (Db D) → String → Option String → Option SyncSourceRow
  verify_sync_token none token source_id = none
  verify_sync_token (some db) token source_id =
      find
        (λ row. is_active row && ((row.token_hash == some (hash token)) && is_named source_id row))
        db.sources

  -- `sync_token` is the digest made of the input, the time and a random number.
  unfoldable pub register_sync_source :
      {D : Type 0} → Driver → Bool → String → Registration → Db D → Option (Registered × Db D)
  register_sync_source driver available sync_token input db =
      let rotated = is_registered input.source_id db.sources in
      let kind = get_or input.source_kind "field-kit" in
      if available
      then some (
        record {
          source_id = input.source_id;
          source_kind = kind;
          sync_token = sync_token;
          rotated = rotated;
        },
        record db {
          sources =
              if rotated
              then rotate input (hash sync_token) db.sources
              else inserted driver db.sources (new_source input (hash sync_token));
          ops = record db.ops {
            audit =
                db.ops.audit
                ++ (if rotated
                    then source_rotated input.source_id kind input.operator_id
                    else source_registered input.source_id kind input.operator_id)
                  ∷ [];
          };
        },
      )
      else none
