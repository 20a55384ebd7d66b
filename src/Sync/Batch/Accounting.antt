-- ===== src/Sync/Batch/Accounting.antt =====
-- The reconciliation report accounts for every entry of the batch, and for every new journal row.
use omnidat.Prelude.{
  ℕ, suc, ◌+◌, ◌≤◌, String, Bool, true, Option, List, [], ◌∷◌, ◌≡◌, refl, arith, length,
  length-append,
}
use omnidat.Sync.Rows.{
  Json, Entry, AuthorityRow, Ops, Db, Driver, eager, lazy, inserted, applied, quarantined,
}
use omnidat.Sync.Batch.{
  Report, Progress, Run, done, threw, Batch, returned, insert_by_seq, sort_by_seq, start, finish,
  step, loop, run_batch, apply_journal_batch, journal_row,
}
use omnidat.Sync.Batch.Cases.{step_cases}

length-insert_by_seq : (e : Entry) (es : List Entry) → length (insert_by_seq e es) ≡ suc (length es)
unfolding insert_by_seq
length-insert_by_seq e [] = refl
length-insert_by_seq e (x ∷ xs) = ground (arith, length-insert_by_seq e xs)

length-sort_by_seq : (es : List Entry) → length (sort_by_seq es) ≡ length es
unfolding sort_by_seq
length-sort_by_seq [] = refl
length-sort_by_seq (e ∷ es) =
    omega (arith, length-insert_by_seq e (sort_by_seq es), length-sort_by_seq es)

-- how many rows so many inserts add
abbrev pub written : Driver → ℕ → ℕ
written eager n = n
written lazy n = 0

length-inserted :
    {A : Type 0} (driver : Driver) (rows : List A) (row : A)
    → length (inserted driver rows row) ≡ length rows + written driver 1
length-inserted eager rows row = omega (arith, length-append {0} rows)
length-inserted lazy rows row = omega arith

written_suc :
    (driver : Driver) (m n : ℕ)
    → written driver (m + 1 + n) ≡ written driver (m + n) + written driver 1
written_suc eager m n = omega arith
written_suc lazy m n = refl

written_suc_right :
    (driver : Driver) (m n : ℕ)
    → written driver (m + (n + 1)) ≡ written driver (m + n) + written driver 1
written_suc_right eager m n = omega arith
written_suc_right lazy m n = refl

abbrev counted : Report → ℕ
counted r = r.applied + r.duplicate + r.rejected_stale

module _ {D : Type 0} where
  -- `n` entries were counted on the way from `p`.
  abbrev Counts : Driver → ℕ → Progress D → Run D → Type 0
  Counts driver n p (done q) =
      (counted q.report ≡ counted p.report + n)
      × (length q.journal + written driver (p.report.applied + p.report.quarantined)
          ≡ length p.journal + written driver (q.report.applied + q.report.quarantined))
      × (q.report.quarantined + p.report.rejected_stale
          ≤ q.report.rejected_stale + p.report.quarantined)
  Counts driver n p (threw q) = Unit

  Counts-trans :
      (driver : Driver) (n : ℕ) (p q : Progress D) (r : Run D)
      → Counts driver 1 p (done q)
      → Counts driver n q r
      → Counts driver (suc n) p r
  Counts-trans driver n p q (done s) h k = (omega arith, omega arith, omega arith)
  Counts-trans driver n p q (threw s) h k = tt

module _ {D : Type 0} (driver : Driver)
    (appliers : String → Option (Json → Ops D → Ops D × Bool)) where
  module _ (rows : List AuthorityRow) (source_id : String) where
    step-Counts :
        (entry : Entry) (p : Progress D)
        → Counts driver 1 p (step driver appliers rows source_id entry p)
    step-Counts entry p =
        step_cases driver appliers rows source_id (Counts driver 1 p) entry p
          (λ _. (omega arith, omega arith, omega arith))
          (λ _ _. (omega arith, omega arith, omega arith))
          (λ _ _ ops _. (
            omega arith,
            omega (
              arith,
              length-inserted driver p.journal (journal_row source_id entry applied),
              written_suc driver p.report.applied p.report.quarantined,
            ),
            omega arith,
          ))
          (λ ops. tt)
          (λ _ _ _. (
            omega arith,
            omega (
              arith,
              length-inserted driver p.journal (journal_row source_id entry quarantined),
              written_suc_right driver p.report.applied p.report.quarantined,
            ),
            omega arith,
          ))

    loop-Counts :
        (entries : List Entry) (p : Progress D)
        → Counts driver (length entries) p (loop driver appliers rows source_id entries p)
    unfolding loop
    loop-Counts [] p = (omega arith, omega arith, omega arith)
    loop-Counts (entry ∷ entries) p =
        go (loop-Counts entries) (step driver appliers rows source_id entry p) (step-Counts entry p)
      where
        go :
            ((q : Progress D)
              → Counts driver (length entries) q (loop driver appliers rows source_id entries q))
            → (r : Run D) → Counts driver 1 p r
            → Counts driver (suc (length entries)) p (elim r [
              | done q ↦ loop driver appliers rows source_id entries q
              | threw q ↦ threw q
            ])
        go rest (done q) k =
            Counts-trans driver (length entries) p q (loop driver appliers rows source_id entries q)
              k (rest q)
        go rest (threw q) k = tt

  -- When a batch returns, each of its entries is counted once as applied, duplicate or
  -- rejected, and the quarantined ones are among the rejected. With a driver that runs an insert
  -- without being asked to await it the journal has grown by exactly as many rows as entries were
  -- applied and quarantined; with one that does not, by none.
  pub apply_journal_batch-accounts :
      (now : ℕ) (db : Db D) (batch : Batch) (r : Report) (db' : Db D)
      → apply_journal_batch driver appliers true now db batch ≡ returned r db'
      → (r.applied + r.duplicate + r.rejected_stale ≡ length batch.entries)
        × (r.quarantined ≤ r.rejected_stale)
        × (length db'.journal ≡ length db.journal + written driver (r.applied + r.quarantined))
  unfolding apply_journal_batch
  apply_journal_batch-accounts now db batch r db' e = go (run_batch driver appliers db batch) e (
      loop-Counts db.authority batch.source_id (sort_by_seq batch.entries)
        (start batch.source_id db))
    where
      final :
          (d : Driver) (q : Progress D)
          → length q.journal + written d 0
            ≡ length db.journal + written d (q.report.applied + q.report.quarantined)
          → q.journal ≡ db'.journal
          → q.report.applied ≡ r.applied
          → q.report.quarantined ≡ r.quarantined
          → length db'.journal ≡ length db.journal + written d (r.applied + r.quarantined)
      final eager q h j m n = ground arith
      final lazy q h j m n = ground arith

      go :
          (run : Run D)
          → finish batch.source_id now db run ≡ returned r db'
          → Counts driver (length (sort_by_seq batch.entries)) (start batch.source_id db) run
          → (r.applied + r.duplicate + r.rejected_stale ≡ length batch.entries)
            × (r.quarantined ≤ r.rejected_stale)
            × (length db'.journal ≡ length db.journal + written driver (r.applied + r.quarantined))
      go (done q) e c = (
        ground (arith, length-sort_by_seq batch.entries),
        ground arith,
        final driver q c.1 (ground arith) (ground arith) (ground arith),
      )
      go (threw q) e c = cc
