-- ===== src/Sync/Batch/Watermark.antt =====
-- The high watermark reported for a source is the greatest sequence number of its journal rows.
use omnidat.Prelude.{
  inl, inr, Bool-cases, ne_of_==, ℕ, ◌≤◌, String, Bool, true, false, Option, some, get_or, List, [],
  ◌∷◌, ◌++◌, ◌≡◌, refl, ◌∙◌, arith, string_eq, option_eq, ◌==◌, if◌then◌else◌, max, All, ==_refl,
}
use omnidat.Sync.Rows.{
  Json, Entry, AuthorityRow, JournalRow, ApplyStatus, applied, quarantined, Ops, Db, eager,
}
use omnidat.Sync.Batch.{
  Progress, Run, done, threw, Report, Batch, returned, start, finish, step, run_batch,
  apply_journal_batch, max_seq, journal_row, sort_by_seq, touch_sync_source,
}
use omnidat.Sync.Batch.Cases.{after, step_cases, loop_induction}

max_if :
    (b : Bool) (x y z : ℕ)
    → max x (if b then max y z else y) ≡ (if b then max (max x y) z else max x y)
max_if true x y z = omega arith
max_if false x y z = refl

pub max_seq-append :
    (source_id : String) (rows : List JournalRow) (row : JournalRow)
    → max_seq source_id (rows ++ row ∷ []) ≡ (
        if row.source_id == some source_id
        then max (max_seq source_id rows) (get_or row.seq 0)
        else max_seq source_id rows)
unfolding max_seq
max_seq-append source_id [] row = elim (Bool-cases (row.source_id == some source_id)) [
  | inl own ↦ rw own (omega arith)
  | inr other ↦ rw other
]
max_seq-append source_id (r ∷ rows) row = elim (Bool-cases (r.source_id == some source_id)) [
  | inl own ↦ rw own (
      rw (max_seq-append source_id rows row) (
        max_if (row.source_id == some source_id) (get_or r.seq 0) (max_seq source_id rows)
          (get_or row.seq 0)))
  | inr other ↦ rw other (max_seq-append source_id rows row)
]

max_seq-le :
    (source_id : String) (rows : List JournalRow) (bound : ℕ)
    → max_seq source_id rows ≤ bound
    → All (λ row. row.source_id ≡ some source_id → get_or row.seq 0 ≤ bound) rows
unfolding max_seq
max_seq-le source_id [] bound h = tt
max_seq-le source_id (r ∷ rows) bound h = elim (Bool-cases (r.source_id == some source_id)) [
  | inl own ↦
      let split = rw own at h in (λ _. omega arith, max_seq-le source_id rows bound (omega arith))
  | inr other ↦
      let rest = (rw other at h) in
      (
        λ e. absurd (ne_of_== r.source_id (some source_id) other e),
        max_seq-le source_id rows bound rest,
      )
]

-- Every row of the source is at most the greatest.
pub max_seq-bounds :
    (source_id : String) (rows : List JournalRow)
    → All (λ row. row.source_id ≡ some source_id → get_or row.seq 0 ≤ max_seq source_id rows) rows
max_seq-bounds source_id rows = max_seq-le source_id rows (max_seq source_id rows) (omega arith)

max_seq-journal_row :
    (source_id : String) (rows : List JournalRow) (entry : Entry) (status : ApplyStatus)
    → max_seq source_id (rows ++ journal_row source_id entry status ∷ [])
      ≡ max (max_seq source_id rows) entry.seq
max_seq-journal_row source_id rows entry status =
    max_seq-append source_id rows (journal_row source_id entry status) ∙ rw (==_refl source_id)

module _ {D : Type 0} (appliers : String → Option (Json → Ops D → Ops D × Bool)) where
  abbrev pub AtWatermark : String → Progress D → Type 0
  AtWatermark source_id p = p.high_watermark ≡ max_seq source_id p.journal

  step-AtWatermark :
      (rows : List AuthorityRow) (source_id : String) (entry : Entry) (p : Progress D)
      → AtWatermark source_id p
      → AtWatermark source_id (after (step eager appliers rows source_id entry p))
  step-AtWatermark rows source_id entry p h =
      step_cases eager appliers rows source_id (λ r. AtWatermark source_id (after r)) entry p
        (λ _. h) (λ _ _. h)
        (λ _ _ ops _. omega (arith, max_seq-journal_row source_id p.journal entry applied))
        (λ ops. h)
        (λ _ _ _. omega (arith, max_seq-journal_row source_id p.journal entry quarantined))

  pub run_batch-AtWatermark :
      (db : Db D) (batch : Batch)
      → AtWatermark batch.source_id (after (run_batch eager appliers db batch))
  unfolding run_batch
  run_batch-AtWatermark db batch =
      loop_induction eager appliers db.authority batch.source_id (AtWatermark batch.source_id)
        (step-AtWatermark db.authority batch.source_id) (sort_by_seq batch.entries)
        (start batch.source_id db) refl

  -- With a driver that runs an insert without its being awaited: when a batch returns, the watermark
  -- reported is the greatest sequence number among the rows that the journal now holds for the
  -- source, and it is what the source's row records.
  apply_journal_batch-watermark :
      (now : ℕ) (db : Db D) (batch : Batch) (r : Report) (db' : Db D)
      → apply_journal_batch eager appliers true now db batch ≡ returned r db'
      → (r.high_watermark ≡ max_seq batch.source_id db'.journal)
        × (db'.sources
            ≡ touch_sync_source batch.source_id
                (max_seq batch.source_id db'.journal)
                now
                db.sources)
  unfolding apply_journal_batch
  apply_journal_batch-watermark now db batch r db' e =
      go (run_batch eager appliers db batch) (run_batch-AtWatermark db batch) e
    where
      go :
          (run : Run D)
          → AtWatermark batch.source_id (after run)
          → finish batch.source_id now db run ≡ returned r db'
          → (r.high_watermark ≡ max_seq batch.source_id db'.journal)
            × (db'.sources
                ≡ touch_sync_source batch.source_id
                    (max_seq batch.source_id db'.journal)
                    now
                    db.sources)
      go (done q) h e = ground arith
      go (threw q) h e = cc
