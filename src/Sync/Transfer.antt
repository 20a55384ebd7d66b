-- ===== src/Sync/Transfer.antt =====
-- `transferEventAuthority`: the hand-over of an event between the field and the cloud.
pub mod TakesOver
pub mod CatchUp
pub mod Fence
pub mod Forgotten
pub mod Single
use omnidat.Prelude.{
  ℕ, ◌+◌, String, Bool, true, Option, none, some, get_or, List, [], ◌∷◌, ◌++◌, ◌==◌, ◌||◌, ltb, max,
  if◌then◌else◌, nat_eq, string_eq, option_eq,
}
use omnidat.Sync.Rows.{
  Authority, AuthorityRow, JournalRow, authority_transferred, Db, Driver, inserted,
}
use omnidat.Sync.Authority.{authority_from_rows}
use omnidat.Sync.Batch.{max_seq}

-- the `input`
pub record Transfer : Type 0 where
  pub event_id : String
  pub to_holder : String
  pub to_source_id : String
  pub reason : String
  pub operator_id : String
  pub target_watermarks : Option (List (String × ℕ))

-- the errors thrown
pub data Refusal : Type 0 where
  no_persistence : Refusal
  not_caught_up : (source_id : String) → (watermark max_seq : ℕ) → Refusal

-- `record[key]`
unfoldable pub lookup : String → List (String × ℕ) → Option ℕ
lookup key [] = none
lookup key ((k, v) ∷ rest) = if k == key then some v else lookup key rest

-- `maxSeqBySource.set(id, Math.max(maxSeqBySource.get(id) ?? 0, seq))`
unfoldable pub raise_max : String → ℕ → List (String × ℕ) → List (String × ℕ)
raise_max id seq [] = (id, max 0 seq) ∷ []
raise_max id seq ((k, v) ∷ rest) =
    if k == id then (k, max v seq) ∷ rest else (k, v) ∷ raise_max id seq rest

-- `!row.sourceId || row.sourceId === input.toSourceId`
abbrev pub is_skipped : String → Option String → Bool
is_skipped to_source_id none = true
is_skipped to_source_id (some id) = (id == "") || (id == to_source_id)

abbrev pub source_name : Option String → String
source_name source_id = get_or source_id ""

-- the first loop of the guard
unfoldable pub max_by_source : String → List (String × ℕ) → List JournalRow → List (String × ℕ)
max_by_source to_source_id maxima [] = maxima
max_by_source to_source_id maxima (row ∷ rows) =
    max_by_source to_source_id
      (if is_skipped to_source_id row.source_id
        then maxima
        else raise_max (source_name row.source_id) (get_or row.seq 0) maxima)
      rows

-- the second loop: the first source that the target has not caught up with
unfoldable pub first_behind : List (String × ℕ) → List (String × ℕ) → Option Refusal
first_behind watermarks [] = none
first_behind watermarks ((id, max_seq) ∷ rest) =
    let seen = get_or (lookup id watermarks) 0 in
    if ltb seen max_seq then some (not_caught_up id seen max_seq) else first_behind watermarks rest

unfoldable pub catch_up_guard : Transfer → List JournalRow → Option Refusal
catch_up_guard input journal =
    if input.to_holder == "cloud"
    then none
    else first_behind (get_or input.target_watermarks [])
        (max_by_source input.to_source_id [] journal)

-- what is returned
pub record Transferred : Type 0 where
  pub event_id : String
  pub epoch : ℕ
  pub holder : String
  pub holder_source_id : String
  pub fence_seq : ℕ

pub data Outcome (D : Type 0) : Type 0 where
  refused : Refusal → Outcome D
  transferred : Transferred → Db D → Outcome D

-- the authority row that a transfer inserts
unfoldable pub transfer_row : Transfer → Authority → List JournalRow → AuthorityRow
transfer_row input current journal = record {
  event_id = some input.event_id;
  epoch = some (current.epoch + 1);
  holder = some input.to_holder;
  holder_source_id = some input.to_source_id;
  fence_seq = some (max_seq current.holder_source_id journal);
}

module _ {D : Type 0} where
  -- both inserts, of which only the audit event's is awaited, and the value returned
  unfoldable pub record_transfer : Driver → Transfer → Authority → Db D → Outcome D
  unfolding transfer_row
  record_transfer driver input current db =
      let fence_seq = max_seq current.holder_source_id db.journal in
      let epoch = current.epoch + 1 in
      transferred
        (record {
          event_id = input.event_id;
          epoch = epoch;
          holder = input.to_holder;
          holder_source_id = input.to_source_id;
          fence_seq = fence_seq;
        })
        (record db {
          authority = inserted driver db.authority (transfer_row input current db.journal);
          ops = record db.ops {
            audit =
                db.ops.audit
                ++ authority_transferred input.event_id current input.to_holder input.to_source_id
                    epoch fence_seq input.reason input.operator_id
                  ∷ [];
          };
        })

  abbrev pub refuse_or : Option Refusal → Outcome D → Outcome D
  refuse_or none outcome = outcome
  refuse_or (some refusal) outcome = refused refusal

  unfoldable pub transfer_event_authority : Driver → Bool → Transfer → Db D → Outcome D
  transfer_event_authority driver available input db =
      if available
      then refuse_or (catch_up_guard input db.journal)
          (record_transfer driver input (authority_from_rows db.authority (some input.event_id)) db)
      else refused no_persistence
