-- ===== src/Sync/Batch/Keys.antt =====
-- Idempotency keys: `seen_keys` follows the journal, and no key is journaled twice.
use omnidat.Prelude.{
  ℕ, String, Bool, true, false, ◌||◌, Option, List, [], ◌∷◌, ◌++◌, ◌≡◌, ◌≢◌, refl, sym, subst, ◌∙◌,
  arith, includes, string_eq, ◌==◌, if◌then◌else◌, inl, inr, Bool-cases, eq_iff,
}
use omnidat.Sync.Rows.{
  Json, Entry, AuthorityRow, JournalRow, ApplyStatus, applied, quarantined, Ops, Db, Driver, eager,
  lazy,
}
use omnidat.Sync.Batch.{
  Progress, Run, done, threw, Batch, Outcome, returned, failed, start, finish, step, run_batch,
  apply_journal_batch, keys_of, journal_row, sort_by_seq,
}
use omnidat.Sync.Batch.Cases.{after, step_cases, loop_induction}

-- No text twice.
abbrev pub Distinct : List String → Type 0
Distinct [] = Unit
Distinct (k ∷ ks) = (includes ks k ≡ false) × Distinct ks

includes-append :
    (ks ls : List String) (k : String) → includes (ks ++ ls) k ≡ (includes ks k || includes ls k)
includes-append [] ls k = refl
includes-append (j ∷ ks) ls k = ground (arith, includes-append ks ls k)

Distinct-append :
    (ks : List String) (k : String) → Distinct ks → includes ks k ≡ false → Distinct (ks ++ k ∷ [])
Distinct-append [] k d h = (refl, tt)
Distinct-append (j ∷ ks) k d h = (
  ground (arith, includes-append ks (k ∷ []) j, eq_iff j k, eq_iff k j),
  Distinct-append ks k d.1 (ground arith),
)

-- An entry's key joins the journal's keys, unless it is empty.
pub keys_of-append :
    (rows : List JournalRow) (source_id : String) (entry : Entry) (status : ApplyStatus)
    → keys_of (rows ++ journal_row source_id entry status ∷ []) ≡ (
        if entry.idempotency_key == ""
        then keys_of rows
        else keys_of rows ++ entry.idempotency_key ∷ [])
unfolding keys_of
keys_of-append [] source_id entry status = ground arith
keys_of-append (row ∷ rows) source_id entry status =
    ground (arith, keys_of-append rows source_id entry status)

-- The keys seen are those of the journal, each of which is there once.
pub record Tracks (journal : List JournalRow) (seen : List String) : Type 0 where
  pub distinct : Distinct (keys_of journal)
  pub tracked : (k : String) → k ≢ "" → includes seen k ≡ includes (keys_of journal) k

module _ (journal : List JournalRow) (seen : List String) (source_id : String) (entry : Entry)
    (status : ApplyStatus) where
  Tracks-insert_empty :
      entry.idempotency_key ≡ ""
      → Tracks journal seen
      → Tracks (journal ++ journal_row source_id entry status ∷ []) (entry.idempotency_key ∷ seen)
  Tracks-insert_empty e t =
      let same : keys_of (journal ++ journal_row source_id entry status ∷ []) ≡ keys_of journal =
        keys_of-append journal source_id entry status
        ∙ ground (arith, eq_iff entry.idempotency_key "") in
      record {
        distinct = rw same t.distinct;
        tracked = λ k h. rw same (ground (arith, t.tracked k h, eq_iff entry.idempotency_key k));
      }

  Tracks-insert_key :
      entry.idempotency_key ≢ ""
      → includes seen entry.idempotency_key ≡ false
      → Tracks journal seen
      → Tracks (journal ++ journal_row source_id entry status ∷ []) (entry.idempotency_key ∷ seen)
  Tracks-insert_key ne fresh t =
      let grown : keys_of (journal ++ journal_row source_id entry status ∷ [])
          ≡ keys_of journal ++ entry.idempotency_key ∷ [] =
        keys_of-append journal source_id entry status
        ∙ ground (arith, eq_iff entry.idempotency_key "") in
      record {
        distinct = rw grown (
            Distinct-append (keys_of journal) entry.idempotency_key t.distinct
              (sym (t.tracked entry.idempotency_key ne) ∙ fresh));
        tracked = λ k h. rw grown (
            ground (
              arith,
              t.tracked k h,
              includes-append (keys_of journal) (entry.idempotency_key ∷ []) k,
            ));
      }

  Tracks-insert :
      includes seen entry.idempotency_key ≡ false
      → Tracks journal seen
      → Tracks (journal ++ journal_row source_id entry status ∷ []) (entry.idempotency_key ∷ seen)
  Tracks-insert fresh t = elim (Bool-cases (entry.idempotency_key == "")) [
    | inl e ↦ Tracks-insert_empty ((eq_iff _ _).0 e) t
    | inr ne ↦ Tracks-insert_key (ground (arith, eq_iff entry.idempotency_key "")) fresh t
  ]

module _ {D : Type 0} (appliers : String → Option (Json → Ops D → Ops D × Bool)) where
  abbrev IsTracked : Progress D → Type 0
  IsTracked p = Tracks p.journal p.seen_keys

  step-IsTracked :
      (rows : List AuthorityRow) (source_id : String) (entry : Entry) (p : Progress D)
      → IsTracked p
      → IsTracked (after (step eager appliers rows source_id entry p))
  step-IsTracked rows source_id entry p t =
      step_cases eager appliers rows source_id (λ r. IsTracked (after r)) entry p (λ _. t)
        (λ _ _. t)
        (λ fresh _ ops _. Tracks-insert p.journal p.seen_keys source_id entry applied fresh t)
        (λ ops. t)
        (λ fresh _ _. Tracks-insert p.journal p.seen_keys source_id entry quarantined fresh t)

  pub run_batch-Tracks :
      (db : Db D) (batch : Batch)
      → Distinct (keys_of db.journal)
      → IsTracked (after (run_batch eager appliers db batch))
  unfolding run_batch
  run_batch-Tracks db batch d =
      loop_induction eager appliers db.authority batch.source_id IsTracked
        (step-IsTracked db.authority batch.source_id) (sort_by_seq batch.entries)
        (start batch.source_id db) (record { distinct = d; tracked = λ k _. refl })

  abbrev pub database : Outcome D → Db D
  database (returned r db) = db
  database (failed db) = db

  -- The driver that waits to be awaited leaves the journal as it was.
  pub run_batch-lazy :
      (db : Db D) (batch : Batch) → (after (run_batch lazy appliers db batch)).journal ≡ db.journal
  unfolding run_batch
  run_batch-lazy db batch =
      loop_induction lazy appliers db.authority batch.source_id (λ p. p.journal ≡ db.journal)
        (λ entry p h.
          step_cases lazy appliers db.authority batch.source_id
            (λ r. (after r).journal ≡ db.journal) entry p (λ _. h) (λ _ _. h) (λ _ _ _ _. h)
            (λ _. h) (λ _ _ _. h))
        (sort_by_seq batch.entries) (start batch.source_id db) refl

  run_batch-Distinct :
      (driver : Driver) (db : Db D) (batch : Batch)
      → Distinct (keys_of db.journal)
      → Distinct (keys_of (after (run_batch driver appliers db batch)).journal)
  run_batch-Distinct eager db batch d = (run_batch-Tracks db batch d).distinct
  run_batch-Distinct lazy db batch d =
      subst (λ rows. Distinct (keys_of rows)) (sym (run_batch-lazy db batch)) d

  -- Whether a batch returns or an applier throws, and whether or not the driver runs the inserts,
  -- from a journal in which no idempotency key stands twice it leaves such a journal.
  pub apply_journal_batch-Distinct :
      (driver : Driver) (available : Bool) (now : ℕ) (db : Db D) (batch : Batch)
      → Distinct (keys_of db.journal)
      → Distinct
          (keys_of (database (apply_journal_batch driver appliers available now db batch)).journal)
  unfolding apply_journal_batch
  apply_journal_batch-Distinct driver false now db batch d = d
  apply_journal_batch-Distinct driver true now db batch d =
      go (run_batch driver appliers db batch) (run_batch-Distinct driver db batch d)
    where
      go :
          (r : Run D)
          → Distinct (keys_of (after r).journal)
          → Distinct (keys_of (database (finish batch.source_id now db r)).journal)
      go (done q) t = t
      go (threw q) t = t
