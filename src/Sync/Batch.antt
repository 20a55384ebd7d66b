-- ===== src/Sync/Batch.antt =====
-- `applyJournalBatch`: the reconciliation of a pushed journal with the one on the server.
pub mod Cases
pub mod Accounting
pub mod Keys
pub mod Watermark
pub mod Lawful
pub mod Sourcing
pub mod Resend
pub mod Repeats
use omnidat.Prelude.{
  ℕ, ◌+◌, String, Bool, true, false, Option, none, some, get_or, List, [], ◌∷◌, ◌++◌, map, ◌==◌,
  ◌&&◌, ◌||◌, ltb, leb, max, if◌then◌else◌, includes, nat_eq, string_eq, option_eq,
}
use omnidat.Sync.Rows.{
  Json, Entry, Authority, AuthorityRow, ApplyStatus, applied, quarantined, JournalRow,
  SyncSourceRow, journal_op, Ops, Db, Driver, inserted,
}
use omnidat.Sync.Authority.{
  default_authority, authority_from_rows, epoch_holder_row, fence_for_epoch,
}

-- `ReconciliationReport`
pub record Report : Type 0 where
  pub applied : ℕ
  pub duplicate : ℕ
  pub rejected_stale : ℕ
  pub quarantined : ℕ
  pub high_watermark : ℕ
  pub holder : String
  pub epoch : ℕ

abbrev pub empty_report : Report
empty_report = record {
  applied = 0;
  duplicate = 0;
  rejected_stale = 0;
  quarantined = 0;
  high_watermark = 0;
  holder = default_authority.holder;
  epoch = default_authority.epoch;
}

-- `[...entries].sort((left, right) => left.seq - right.seq)`, which is stable
unfoldable pub insert_by_seq : Entry → List Entry → List Entry
insert_by_seq e [] = e ∷ []
insert_by_seq e (x ∷ xs) = if leb e.seq x.seq then e ∷ x ∷ xs else x ∷ insert_by_seq e xs

unfoldable pub sort_by_seq : List Entry → List Entry
sort_by_seq [] = []
sort_by_seq (e ∷ es) = insert_by_seq e (sort_by_seq es)

-- `reduce((max, row) => Math.max(max, row.seq ?? 0), 0)` over the rows of one source
unfoldable pub max_seq : String → List JournalRow → ℕ
max_seq source_id [] = 0
max_seq source_id (row ∷ rows) =
    if row.source_id == some source_id
    then max (get_or row.seq 0) (max_seq source_id rows)
    else max_seq source_id rows

-- the idempotency keys of the rows, without the absent and the empty ones
unfoldable pub keys_of : List JournalRow → List String
keys_of [] = []
keys_of (row ∷ rows) = elim row.idempotency_key [
  | none ↦ keys_of rows
  | some key ↦ if key == "" then keys_of rows else key ∷ keys_of rows
]

-- the row that `insertJournalRow` adds
abbrev pub journal_row : String → Entry → ApplyStatus → JournalRow
journal_row source_id entry status = record {
  source_id = some source_id;
  seq = some entry.seq;
  event_id = entry.event_id;
  epoch = some entry.epoch;
  op_type = some entry.op_type;
  payload = some entry.payload;
  idempotency_key = some entry.idempotency_key;
  payload_checksum = some entry.payload_checksum;
  recorded_at = some entry.recorded_at;
  apply_status = some status;
}

-- `fence !== null && entry.seq <= fence`
abbrev pub within_fence : ℕ → Option ℕ → Bool
within_fence seq none = false
within_fence seq (some fence) = leb seq fence

-- `pastHolder?.holderSourceId === batch.sourceId`
abbrev pub held_by : Option AuthorityRow → String → Bool
held_by none source_id = false
held_by (some row) source_id = row.holder_source_id == some source_id

unfoldable pub is_current_holder : Authority → String → Entry → Bool
is_current_holder authority source_id entry =
    entry.epoch == authority.epoch && (source_id == authority.holder_source_id)

unfoldable pub is_fenced_history : List AuthorityRow → Authority → String → Entry → Bool
is_fenced_history rows authority source_id entry =
    ltb entry.epoch authority.epoch
    && (held_by (epoch_holder_row rows entry.event_id entry.epoch) source_id
        && within_fence entry.seq (fence_for_epoch rows entry.event_id entry.epoch))

-- What the loop carries from entry to entry.
pub record Progress (D : Type 0) : Type 0 where
  pub journal : List JournalRow
  pub ops : Ops D
  pub seen_keys : List String
  pub high_watermark : ℕ
  pub report : Report

-- An applier that throws ends the loop: what was written before stays written.
pub data Run (D : Type 0) : Type 0 where
  done : Progress D → Run D
  threw : Progress D → Run D

module _ {D : Type 0} where
  -- the report at the head of the loop's body
  abbrev pub at_authority : Authority → Progress D → Progress D
  at_authority authority p = record p {
    report = record p.report { holder = authority.holder; epoch = authority.epoch };
  }

  abbrev pub count_duplicate : Progress D → Progress D
  count_duplicate p = record p { report = record p.report { duplicate = p.report.duplicate + 1 } }

  abbrev pub count_stale : Progress D → Progress D
  count_stale p = record p {
    report = record p.report { rejected_stale = p.report.rejected_stale + 1 };
  }

  -- the two inserts into the journal, neither of them awaited, with what follows each of them
  abbrev pub accepted : Driver → String → Entry → Ops D → Progress D → Progress D
  accepted driver source_id entry ops p = record p {
    journal = inserted driver p.journal (journal_row source_id entry applied);
    ops = ops;
    seen_keys = entry.idempotency_key ∷ p.seen_keys;
    high_watermark = max p.high_watermark entry.seq;
    report = record p.report { applied = p.report.applied + 1 };
  }

  abbrev pub quarantine : Driver → String → Entry → Progress D → Progress D
  quarantine driver source_id entry p = record p {
    journal = inserted driver p.journal (journal_row source_id entry quarantined);
    seen_keys = entry.idempotency_key ∷ p.seen_keys;
    high_watermark = max p.high_watermark entry.seq;
    report = record p.report {
      rejected_stale = p.report.rejected_stale + 1;
      quarantined = p.report.quarantined + 1;
    };
  }

module _ {D : Type 0} (appliers : String → Option (Json → Ops D → Ops D × Bool)) where
  -- `dispatchOp`; the flag says that the applier returned
  unfoldable pub dispatch_op : String → Entry → Ops D → Ops D × Bool
  dispatch_op source_id entry ops = elim (appliers entry.op_type) [
    | some applier ↦ applier entry.payload ops
    | none ↦ (
      record ops {
        audit =
            ops.audit
            ++ journal_op entry.op_type entry.idempotency_key source_id entry.seq entry.event_id
                entry.payload
              ∷ [];
      },
      true,
    )
  ]

module _ {D : Type 0} (driver : Driver)
    (appliers : String → Option (Json → Ops D → Ops D × Bool)) where
  -- the branch that dispatches the entry and journals it as applied
  unfoldable pub accept : String → Entry → Progress D → Run D
  accept source_id entry p =
      let (ops, returned) = dispatch_op appliers source_id entry p.ops in
      if returned
      then done (accepted driver source_id entry ops p)
      else threw (record p { ops = ops })

  module _ (rows : List AuthorityRow) (source_id : String) where
    -- the body of the loop, once the authority is known
    unfoldable pub reconcile : Authority → Entry → Progress D → Run D
    reconcile authority entry p =
        if includes p.seen_keys entry.idempotency_key
        then done (count_duplicate p)
        else if ltb authority.epoch entry.epoch
        then done (count_stale p)
        else if is_current_holder authority source_id entry
            || is_fenced_history rows authority source_id entry
        then accept source_id entry p
        else done (quarantine driver source_id entry p)

    unfoldable pub step : Entry → Progress D → Run D
    unfolding reconcile
    step entry p =
        let authority = authority_from_rows rows entry.event_id in
        reconcile authority entry (at_authority authority p)

    unfoldable pub loop : List Entry → Progress D → Run D
    loop [] p = done p
    loop (entry ∷ entries) p = elim (step entry p) [ done q ↦ loop entries q | threw q ↦ threw q ]

-- `touchSyncSource`
unfoldable pub touch_sync_source : String → ℕ → ℕ → List SyncSourceRow → List SyncSourceRow
touch_sync_source source_id last_pushed_seq now = map λ row.
    if row.source_id == some source_id
    then record row { last_pushed_seq = some last_pushed_seq; last_sync_at = some now }
    else row

-- `{ sourceId, entries }`
pub record Batch : Type 0 where
  pub source_id : String
  pub entries : List Entry

pub data Outcome (D : Type 0) : Type 0 where
  returned : Report → Db D → Outcome D
  failed : Db D → Outcome D

module _ {D : Type 0} where
  abbrev pub start : String → Db D → Progress D
  start source_id db = record {
    journal = db.journal;
    ops = db.ops;
    seen_keys = keys_of db.journal;
    high_watermark = max_seq source_id db.journal;
    report = empty_report;
  }

  -- what the database holds once the loop has ended
  abbrev pub finish : String → ℕ → Db D → Run D → Outcome D
  finish source_id now db (done p) =
      returned (record p.report { high_watermark = p.high_watermark })
        (record db {
          journal = p.journal;
          ops = p.ops;
          sources = touch_sync_source source_id p.high_watermark now db.sources;
        })
  finish source_id now db (threw p) = failed (record db { journal = p.journal; ops = p.ops })

-- `available` is `db && databasePersistenceEnabled()`.
module _ {D : Type 0} (driver : Driver)
    (appliers : String → Option (Json → Ops D → Ops D × Bool)) where
  unfoldable pub run_batch : Db D → Batch → Run D
  run_batch db batch =
      loop driver appliers db.authority batch.source_id (sort_by_seq batch.entries)
        (start batch.source_id db)

  unfoldable pub apply_journal_batch : Bool → ℕ → Db D → Batch → Outcome D
  unfolding run_batch
  apply_journal_batch available now db batch =
      if available
      then finish batch.source_id now db (run_batch db batch)
      else returned empty_report db
