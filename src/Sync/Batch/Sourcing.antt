-- ===== src/Sync/Batch/Sourcing.antt =====
-- The journal explains what a batch did: which entries were let in, and what they did.
use mathlib.Core.List.{map-append, append_assoc, append-nil}
use omnidat.Prelude.{
  ℕ, String, Bool, true, Option, List, [], ◌∷◌, ◌++◌, map, ◌≡◌, refl, sym, ap, ◌∙◌, arith, All,
  All-append, string_eq, option_eq, nat_eq, max,
}
use omnidat.Sync.Rows.{
  Json, Entry, AuthorityRow, ApplyStatus, applied, quarantined, JournalRow, Ops, Db, Driver, eager,
  lazy, inserted, inserted_all,
}
use omnidat.Sync.Batch.{
  Progress, Run, done, threw, Report, Batch, returned, start, finish, journal_row, dispatch_op,
  step, loop, run_batch, apply_journal_batch, sort_by_seq, max_seq,
}
use omnidat.Sync.Batch.Lawful.{Lawful, is_authorized-MayWrite}
use omnidat.Sync.Batch.Cases.{after, step_cases}

abbrev pub log_row : String → Entry × ApplyStatus → JournalRow
log_row source_id (entry, status) = journal_row source_id entry status

module _ {D : Type 0} (appliers : String → Option (Json → Ops D → Ops D × Bool)) where
  -- Dispatch again, in order, the entries that the log marks as applied.
  pub redo : String → List (Entry × ApplyStatus) → Ops D → Ops D
  redo source_id [] ops = ops
  redo source_id ((entry, applied) ∷ log) ops =
      redo source_id log (dispatch_op appliers source_id entry ops).0
  redo source_id ((entry, quarantined) ∷ log) ops = redo source_id log ops

  redo-append :
      (source_id : String) (xs ys : List (Entry × ApplyStatus)) (ops : Ops D)
      → redo source_id (xs ++ ys) ops ≡ redo source_id ys (redo source_id xs ops)
  unfolding redo
  redo-append source_id [] ys ops = refl
  redo-append source_id ((entry, applied) ∷ xs) ys ops =
      redo-append source_id xs ys (dispatch_op appliers source_id entry ops).0
  redo-append source_id ((entry, quarantined) ∷ xs) ys ops = redo-append source_id xs ys ops

  abbrev pub Effect : String → List (Entry × ApplyStatus) → Ops D → Run D → Type 0
  Effect source_id log ops (done q) = q.ops ≡ redo source_id log ops
  Effect source_id log ops (threw q) = Unit

-- the watermark once the entries of a log are settled
pub raised : ℕ → List (Entry × ApplyStatus) → ℕ
raised m [] = m
raised m ((entry, status) ∷ log) = raised (max m entry.seq) log

raised-append :
    (m : ℕ) (xs ys : List (Entry × ApplyStatus)) → raised m (xs ++ ys) ≡ raised (raised m xs) ys
unfolding raised
raised-append m [] ys = refl
raised-append m ((entry, status) ∷ xs) ys = raised-append (max m entry.seq) xs ys

inserted_all-append :
    {A : Type 0} (driver : Driver) (rows xs ys : List A)
    → inserted_all driver rows (xs ++ ys) ≡ inserted_all driver (inserted_all driver rows xs) ys
inserted_all-append eager rows xs ys = sym (append_assoc rows xs ys)
inserted_all-append lazy rows xs ys = refl

inserted_all-nil :
    {A : Type 0} (driver : Driver) (rows : List A) → inserted_all driver rows [] ≡ rows
inserted_all-nil eager rows = append-nil rows
inserted_all-nil lazy rows = refl

inserted-inserted_all :
    {A : Type 0} (driver : Driver) (rows : List A) (row : A)
    → inserted driver rows row ≡ inserted_all driver rows (row ∷ [])
inserted-inserted_all eager rows row = refl
inserted-inserted_all lazy rows row = refl

module _ {D : Type 0} (driver : Driver)
    (appliers : String → Option (Json → Ops D → Ops D × Bool)) where
  module _ (rows : List AuthorityRow) (source_id : String) where
    pub record Explained (p : Progress D) (r : Run D) : Type 0 where
      pub log : List (Entry × ApplyStatus)
      pub journal : (after r).journal ≡ inserted_all driver p.journal (map (log_row source_id) log)
      pub watermark : (after r).high_watermark ≡ raised p.high_watermark log
      pub lawful : All (Lawful rows source_id) log
      pub effect : Effect appliers source_id log p.ops r

    step-Explained :
        (entry : Entry) (p : Progress D) → Explained p (step driver appliers rows source_id entry p)
    unfolding redo raised
    step-Explained entry p =
        step_cases driver appliers rows source_id (Explained p) entry p
          (λ _. record {
            log = [];
            watermark = refl;
            journal = sym (inserted_all-nil driver p.journal);
            lawful = tt;
            effect = refl;
          })
          (λ _ _. record {
            log = [];
            watermark = refl;
            journal = sym (inserted_all-nil driver p.journal);
            lawful = tt;
            effect = refl;
          })
          (λ _ authorized ops e. record {
            log = (entry, applied) ∷ [];
            journal = inserted-inserted_all driver p.journal (journal_row source_id entry applied);
            watermark = refl;
            lawful = (is_authorized-MayWrite rows source_id entry authorized, tt);
            effect = ap (λ (r : Ops D × Bool). r.0) (sym e);
          })
          (λ ops. record {
            log = [];
            watermark = refl;
            journal = sym (inserted_all-nil driver p.journal);
            lawful = tt;
            effect = tt;
          })
          (λ _ known _. record {
            log = (entry, quarantined) ∷ [];
            journal =
                inserted-inserted_all driver p.journal (journal_row source_id entry quarantined);
            watermark = refl;
            lawful = (known, tt);
            effect = refl;
          })

    Explained-trans :
        (p q : Progress D) (r : Run D) → Explained p (done q) → Explained q r → Explained p r
    Explained-trans p q r h k = record {
      log = h.log ++ k.log;
      journal =
          k.journal
          ∙ ap (λ rows. inserted_all driver rows (map (log_row source_id) k.log)) h.journal
          ∙ sym (
              inserted_all-append driver p.journal (map (log_row source_id) h.log)
                (map (log_row source_id) k.log))
          ∙ ap (inserted_all driver p.journal) (sym (map-append (log_row source_id) h.log k.log));
      watermark =
          k.watermark
          ∙ ap (λ m. raised m k.log) h.watermark
          ∙ sym (raised-append p.high_watermark h.log k.log);
      lawful = All-append (Lawful rows source_id) h.log k.log h.lawful k.lawful;
      effect = join r k.log k.effect;
    }
      where
        join :
            (r : Run D) (log : List (Entry × ApplyStatus))
            → Effect appliers source_id log q.ops r
            → Effect appliers source_id (h.log ++ log) p.ops r
        join (done s) log e =
            e
            ∙ ap (redo appliers source_id log) h.effect
            ∙ sym (redo-append appliers source_id h.log log p.ops)
        join (threw s) log e = tt

    loop-Explained :
        (entries : List Entry) (p : Progress D)
        → Explained p (loop driver appliers rows source_id entries p)
    unfolding loop redo raised
    loop-Explained [] p = record {
      log = [];
      watermark = refl;
      journal = sym (inserted_all-nil driver p.journal);
      lawful = tt;
      effect = refl;
    }
    loop-Explained (entry ∷ entries) p =
        go (loop-Explained entries) (step driver appliers rows source_id entry p)
          (step-Explained entry p)
      where
        go :
            ((q : Progress D) → Explained q (loop driver appliers rows source_id entries q))
            → (r : Run D) → Explained p r
            → Explained p (elim r [
              | done q ↦ loop driver appliers rows source_id entries q
              | threw q ↦ threw q
            ])
        go rest (done q) k =
            Explained-trans p q (loop driver appliers rows source_id entries q) k (rest q)
        go rest (threw q) k = k

  -- When a batch returns, there is a log of entries, each marked applied or quarantined, such that
  -- the journal is the old one, followed by exactly their rows, in this order, if the driver runs an
  -- insert that is not awaited; the watermark reported is the greatest of that of the old journal and
  -- of their sequence numbers; the domain and audit tables are those that dispatching the applied
  -- ones again, in this order, makes of the old tables; every applied entry came from the source that
  -- holds its event at its epoch, or from the source that held it at a past epoch and within the
  -- fence of the epoch after; and no quarantined entry is of a future epoch.
  pub apply_journal_batch-Explained :
      (now : ℕ) (db : Db D) (batch : Batch) (r : Report) (db' : Db D)
      → apply_journal_batch driver appliers true now db batch ≡ returned r db'
      → (log : List (Entry × ApplyStatus)) × (db'.journal
          ≡ inserted_all driver db.journal (map (log_row batch.source_id) log))
        × (r.high_watermark ≡ raised (max_seq batch.source_id db.journal) log)
        × (db'.ops ≡ redo appliers batch.source_id log db.ops)
        × All (Lawful db.authority batch.source_id) log
  unfolding apply_journal_batch run_batch
  apply_journal_batch-Explained now db batch r db' e = go (run_batch driver appliers db batch) e (
      loop-Explained db.authority batch.source_id (sort_by_seq batch.entries)
        (start batch.source_id db))
    where
      go :
          (run : Run D)
          → finish batch.source_id now db run ≡ returned r db'
          → Explained db.authority batch.source_id (start batch.source_id db) run
          → (log : List (Entry × ApplyStatus)) × (db'.journal
              ≡ inserted_all driver db.journal (map (log_row batch.source_id) log))
            × (r.high_watermark ≡ raised (max_seq batch.source_id db.journal) log)
            × (db'.ops ≡ redo appliers batch.source_id log db.ops)
            × All (Lawful db.authority batch.source_id) log
      go (done q) e k = (
        k.log,
        ground (arith, k.journal),
        ground (arith, k.watermark),
        ground (arith, k.effect),
        k.lawful,
      )
      go (threw q) e k = cc
