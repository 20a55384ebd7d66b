-- ===== src/Sync/Status.antt =====
-- `getCurrentAuthority` and `computeSyncStatus`: what a dashboard shows of the field's journal.
use omnidat.Prelude.{
  ℕ, ◌+◌, ◌-◌, ◌/◌, String, Bool, true, Option, none, some, List, [], ◌∷◌, ◌++◌, ◌≡◌, ap, ◌∙◌, ◌==◌,
  if◌then◌else◌, filter, find, max, string_eq, Bool-cases, inl, inr, eq_iff,
}
use omnidat.Sync.Rows.{Authority, Db}
use omnidat.Sync.Authority.{default_authority, authority_from_rows}
use omnidat.Sync.Sources.{SourceView, list_sync_sources}

-- `SyncStatus`
pub record SyncStatus : Type 0 where
  pub holder : String
  pub epoch : ℕ
  pub source_id : Option String
  pub last_sync_at : Option ℕ
  pub staleness_seconds : Option ℕ

-- `array[0]`
abbrev first : List SourceView → Option SourceView
first [] = none
first (view ∷ views) = some view

abbrev last_sync_of : Option SourceView → Option ℕ
last_sync_of none = none
last_sync_of (some view) = view.last_sync_at

abbrev source_id_of : Option SourceView → Option String
source_id_of none = none
source_id_of (some view) = some view.source_id

-- `Math.max(0, Math.round((now - last) / 1000))`: a time to come rounds to 0 or below.
abbrev pub staleness : ℕ → Option ℕ → Option ℕ
staleness now none = none
staleness now (some last) = some (max 0 ((now - last + 500) / 1000))

abbrev pub is_holder : Authority → SourceView → Bool
is_holder authority view = view.source_id == authority.holder_source_id

unfoldable pub holder_source : Authority → List SourceView → Option SourceView
holder_source authority sources =
    if authority.holder == "field"
    then first (
        filter (is_holder authority) sources
        ++ filter (λ (view : SourceView). view.source_kind == "field-kit") sources)
    else none

first-find :
    (authority : Authority) (views rest : List SourceView) (view : SourceView)
    → find (is_holder authority) views ≡ some view
    → first (filter (is_holder authority) views ++ rest) ≡ some view
first-find authority [] rest view e = cc
first-find authority (v ∷ views) rest view e = elim (Bool-cases (is_holder authority v)) [
  | inl own ↦ rw own (rw own at e)
  | inr other ↦ rw other (first-find authority views rest view (rw other at e))
]

holder_source-field :
    (authority : Authority) (views : List SourceView) (view : SourceView)
    → authority.holder ≡ "field"
    → find (is_holder authority) views ≡ some view
    → holder_source authority views ≡ some view
unfolding holder_source
holder_source-field authority views view field found =
    let is_field : (authority.holder == "field") ≡ true =
      (eq_iff authority.holder "field").1 field in
    rw (holder_source, is_field)
      (first-find authority views (filter (λ (v : SourceView). v.source_kind == "field-kit") views)
        view found)

module _ {D : Type 0} where
  unfoldable pub get_current_authority : Option (Db D) → Option String → Authority
  get_current_authority none event_id = default_authority
  get_current_authority (some db) event_id = authority_from_rows db.authority event_id

  pub compute_sync_status : Option (Db D) → Option String → ℕ → SyncStatus
  unfolding holder_source
  compute_sync_status db event_id now =
      let authority = get_current_authority db event_id in
      let source = holder_source authority (list_sync_sources db) in
      record {
        holder = authority.holder;
        epoch = authority.epoch;
        source_id = source_id_of source;
        last_sync_at = last_sync_of source;
        staleness_seconds = staleness now (last_sync_of source);
      }

  -- While the field holds the event and the holder's source is registered, the status is that of
  -- the holder's source, with its staleness counted from that source's last sync in seconds.
  pub compute_sync_status-holder :
      (db : Db D) (event_id : Option String) (now : ℕ) (view : SourceView)
      → (get_current_authority (some db) event_id).holder ≡ "field"
      → find (is_holder (get_current_authority (some db) event_id)) (list_sync_sources (some db))
        ≡ some view
      → compute_sync_status (some db) event_id now ≡ record {
        holder = "field";
        epoch = (authority_from_rows db.authority event_id).epoch;
        source_id = some view.source_id;
        last_sync_at = view.last_sync_at;
        staleness_seconds = staleness now view.last_sync_at;
      }
  unfolding compute_sync_status get_current_authority holder_source
  compute_sync_status-holder db event_id now view field found =
      ap
        (λ (source : Option SourceView). record {
          holder = authority.holder;
          epoch = authority.epoch;
          source_id = source_id_of source;
          last_sync_at = last_sync_of source;
          staleness_seconds = staleness now (last_sync_of source);
        })
        chosen
      ∙ ap
          (λ (h : String). record {
            holder = h;
            epoch = authority.epoch;
            source_id = some view.source_id;
            last_sync_at = view.last_sync_at;
            staleness_seconds = staleness now view.last_sync_at;
          })
          field
    where
      authority : Authority
      authority = authority_from_rows db.authority event_id

      chosen : holder_source authority (list_sync_sources (some db)) ≡ some view
      chosen = holder_source-field authority (list_sync_sources (some db)) view field found
