-- ===== src/Sync/Batch/Repeats.antt =====
-- What a batch is answered is decided by the journal and the authority rows alone.
use omnidat.Prelude.{
  ℕ, ◌+◌, String, Bool, true, false, Option, List, [], ◌∷◌, ◌≡◌, refl, sym, ap, subst, ◌∙◌, arith,
  includes, string_eq, ltb, max, if◌then◌else◌,
}
use omnidat.Sync.Rows.{Json, Entry, AuthorityRow, JournalRow, Ops, Db, Driver, lazy}
use omnidat.Sync.Authority.{authority_from_rows}
use omnidat.Sync.Batch.{
  Progress, Run, done, threw, Report, empty_report, Batch, returned, start, finish, step, loop,
  run_batch, apply_journal_batch, sort_by_seq, keys_of, max_seq, is_current_holder,
  is_fenced_history,
}
use omnidat.Sync.Batch.Cases.{after, is_authorized, step_cases}
use omnidat.Sync.Batch.Keys.{run_batch-lazy}

-- the part of the loop's state that its decisions are made from, and the report
pub record Tally : Type 0 where
  pub seen_keys : List String
  pub high_watermark : ℕ
  pub report : Report

abbrev settled : Entry → Tally → Report → Tally
settled entry t report = record {
  seen_keys = entry.idempotency_key ∷ t.seen_keys;
  high_watermark = max t.high_watermark entry.seq;
  report = report;
}

abbrev counting : Tally → Report → Tally
counting t report = record t { report = report }

module _ (rows : List AuthorityRow) (source_id : String) where
  -- the decision on an entry, without what its applier does
  abbrev decide : Entry → Tally → Tally
  decide entry t =
      let authority = authority_from_rows rows entry.event_id in
      let report = record t.report { holder = authority.holder; epoch = authority.epoch } in
      if includes t.seen_keys entry.idempotency_key
      then counting t (record report { duplicate = report.duplicate + 1 })
      else if ltb authority.epoch entry.epoch
      then counting t (record report { rejected_stale = report.rejected_stale + 1 })
      else if is_authorized rows source_id entry
      then settled entry t (record report { applied = report.applied + 1 })
      else settled entry t (record report {
        rejected_stale = report.rejected_stale + 1;
        quarantined = report.quarantined + 1;
      })

  unfoldable decide_all : List Entry → Tally → Tally
  decide_all [] t = t
  decide_all (entry ∷ entries) t = decide_all entries (decide entry t)

  is_authorized-known :
      (entry : Entry)
      → is_authorized rows source_id entry ≡ true
      → ltb (authority_from_rows rows entry.event_id).epoch entry.epoch ≡ false
  unfolding is_current_holder is_fenced_history
  is_authorized-known entry h = ground arith

  module _ {D : Type 0} (driver : Driver)
      (appliers : String → Option (Json → Ops D → Ops D × Bool)) where
    abbrev tally : Progress D → Tally
    tally p = record {
      seen_keys = p.seen_keys;
      high_watermark = p.high_watermark;
      report = p.report;
    }

    abbrev Comes : Tally → Run D → Type 0
    Comes t (done q) = tally q ≡ t
    Comes t (threw q) = Unit

    step-Comes :
        (entry : Entry) (p : Progress D)
        → Comes (decide entry (tally p)) (step driver appliers rows source_id entry p)
    step-Comes entry p =
        step_cases driver appliers rows source_id (Comes (decide entry (tally p))) entry p
          (λ seen. rw seen refl)
          (λ ahead fresh.
            let beyond : ltb (authority_from_rows rows entry.event_id).epoch entry.epoch ≡ true =
              ground (arith, ahead) in
            rw (fresh, beyond) refl)
          (λ fresh authorized ops _.
            rw (fresh, is_authorized-known entry authorized, authorized) refl)
          (λ ops. tt)
          (λ fresh known other.
            let within : ltb (authority_from_rows rows entry.event_id).epoch entry.epoch ≡ false =
              ground (arith, known) in
            rw (fresh, within, other) refl)

    loop-Comes :
        (entries : List Entry) (p : Progress D)
        → Comes (decide_all entries (tally p)) (loop driver appliers rows source_id entries p)
    unfolding loop decide_all
    loop-Comes [] p = refl
    loop-Comes (entry ∷ entries) p =
        go (loop-Comes entries) (step driver appliers rows source_id entry p) (step-Comes entry p)
      where
        go :
            ((q : Progress D)
              → Comes
                  (decide_all entries (tally q))
                  (loop driver appliers rows source_id entries q))
            → (r : Run D) → Comes (decide entry (tally p)) r
            → Comes (decide_all entries (decide entry (tally p))) (elim r [
              | done q ↦ loop driver appliers rows source_id entries q
              | threw q ↦ threw q
            ])
        go rest (done q) k =
            subst
              (λ t. Comes (decide_all entries t) (loop driver appliers rows source_id entries q)) k
              (rest q)
        go rest (threw q) k = tt

-- the report that a tally ends in
abbrev reported : Tally → Report
reported t = record t.report { high_watermark = t.high_watermark }

abbrev begun : String → List JournalRow → Tally
begun source_id journal = record {
  seen_keys = keys_of journal;
  high_watermark = max_seq source_id journal;
  report = empty_report;
}

module _ {D : Type 0} (appliers : String → Option (Json → Ops D → Ops D × Bool)) where
  apply_journal_batch-reported :
      (driver : Driver) (now : ℕ) (db : Db D) (batch : Batch) (r : Report) (db' : Db D)
      → apply_journal_batch driver appliers true now db batch ≡ returned r db'
      → r
        ≡ reported (
            decide_all db.authority batch.source_id
              (sort_by_seq batch.entries)
              (begun batch.source_id db.journal))
  unfolding apply_journal_batch run_batch
  apply_journal_batch-reported driver now db batch r db' e =
      go (run_batch driver appliers db batch) e (
        loop-Comes db.authority batch.source_id driver appliers (sort_by_seq batch.entries)
          (start batch.source_id db))
    where
      go :
          (run : Run D)
          → finish batch.source_id now db run ≡ returned r db'
          → Comes db.authority batch.source_id driver appliers
              (decide_all db.authority batch.source_id
                (sort_by_seq batch.entries)
                (begun batch.source_id db.journal))
              run
          → r
            ≡ reported (
                decide_all db.authority batch.source_id
                  (sort_by_seq batch.entries)
                  (begun batch.source_id db.journal))
      go (done q) e c =
          let same : r ≡ record q.report { high_watermark = q.high_watermark } = ground arith in
          same ∙ ap reported c
      go (threw q) e c = cc

  apply_journal_batch-lazy :
      (now : ℕ) (db : Db D) (batch : Batch) (r : Report) (db' : Db D)
      → apply_journal_batch lazy appliers true now db batch ≡ returned r db'
      → (db'.journal ≡ db.journal) × (db'.authority ≡ db.authority)
  unfolding apply_journal_batch
  apply_journal_batch-lazy now db batch r db' e =
      go (run_batch lazy appliers db batch) (run_batch-lazy appliers db batch) e
    where
      go :
          (run : Run D)
          → (after run).journal ≡ db.journal
          → finish batch.source_id now db run ≡ returned r db'
          → (db'.journal ≡ db.journal) × (db'.authority ≡ db.authority)
      go (done q) h e = (ground (arith, h), ground arith)
      go (threw q) h e = cc

  -- With a driver that runs an insert only when it is awaited: a batch that returned has left the
  -- journal as it was, and when it is sent again and returns again its report is the first one, with
  -- as many entries applied.
  pub apply_journal_batch-repeats :
      (now later : ℕ) (db : Db D) (batch : Batch) (r r' : Report) (db' db'' : Db D)
      → apply_journal_batch lazy appliers true now db batch ≡ returned r db'
      → apply_journal_batch lazy appliers true later db' batch ≡ returned r' db''
      → (db'.journal ≡ db.journal) × (r' ≡ r)
  apply_journal_batch-repeats now later db batch r r' db' db'' first second =
      let (journal, authority) = apply_journal_batch-lazy now db batch r db' first in
      (
        journal,
        apply_journal_batch-reported lazy later db' batch r' db'' second
            ∙ ap
                (λ rows. reported (
                  decide_all rows batch.source_id (sort_by_seq batch.entries)
                    (begun batch.source_id db'.journal)))
                authority
            ∙ ap
                (λ journal. reported (
                  decide_all db.authority batch.source_id (sort_by_seq batch.entries)
                    (begun batch.source_id journal)))
                journal
            ∙ sym (apply_journal_batch-reported lazy now db batch r db' first),
      )
