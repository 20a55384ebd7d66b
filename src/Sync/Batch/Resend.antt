-- ===== src/Sync/Batch/Resend.antt =====
-- A batch that is sent again after it was applied changes nothing.
use omnidat.Prelude.{
  subst, ℕ, ◌<◌, String, Bool, true, Option, List, [], ◌∷◌, ◌≡◌, ◌≢◌, refl, sym, ◌∙◌, ◌⊎◌, inl, inr,
  arith, All, includes, string_eq, ==_refl, leb, Bool-cases, ltb,
}
use omnidat.Sync.Rows.{Json, Entry, AuthorityRow, Ops, Db, eager}
use omnidat.Sync.Authority.{authority_from_rows}
use omnidat.Sync.Batch.{
  Progress, Run, done, threw, Report, Batch, Outcome, returned, failed, start, finish, step, loop,
  run_batch, apply_journal_batch, sort_by_seq, insert_by_seq, keys_of, max_seq,
}
use omnidat.Sync.Batch.Cases.{after, step_cases}
use omnidat.Sync.Batch.Keys.{Distinct, Tracks, run_batch-Tracks}
use omnidat.Sync.Batch.Watermark.{run_batch-AtWatermark}

-- The loop has no more to do for the entry.
abbrev Settled : List AuthorityRow → List String → Entry → Type 0
Settled rows seen entry =
    (includes seen entry.idempotency_key ≡ true)
    ⊎ ((authority_from_rows rows entry.event_id).epoch < entry.epoch)

abbrev Grows : List String → List String → Type 0
Grows seen seen' = (k : String) → includes seen k ≡ true → includes seen' k ≡ true

Settled-Grows :
    (rows : List AuthorityRow) (seen seen' : List String) (entries : List Entry)
    → Grows seen seen'
    → All (Settled rows seen) entries
    → All (Settled rows seen') entries
Settled-Grows rows seen seen' [] g h = tt
Settled-Grows rows seen seen' (e ∷ es) g h = (lift h.0, Settled-Grows rows seen seen' es g h.1)
  where
    lift : Settled rows seen e → Settled rows seen' e
    lift (inl k) = inl (g e.idempotency_key k)
    lift (inr k) = inr k

All-insert_by_seq :
    (P : Entry → Type 0) (e : Entry) (es : List Entry) → P e → All P es → All P (insert_by_seq e es)
unfolding insert_by_seq
All-insert_by_seq P e [] h k = (h, tt)
All-insert_by_seq P e (x ∷ xs) h k = elim (Bool-cases (leb e.seq x.seq)) [
  | inl before ↦ rw before (h, k)
  | inr behind ↦ rw behind (k.0, All-insert_by_seq P e xs h k.1)
]

All-sort_by_seq : (P : Entry → Type 0) (es : List Entry) → All P es → All P (sort_by_seq es)
unfolding sort_by_seq
All-sort_by_seq P [] h = tt
All-sort_by_seq P (e ∷ es) h = All-insert_by_seq P e (sort_by_seq es) h.0 (All-sort_by_seq P es h.1)

module _ {D : Type 0} (appliers : String → Option (Json → Ops D → Ops D × Bool))
    (rows : List AuthorityRow) (source_id : String) where
  abbrev Settles : List Entry → Progress D → Run D → Type 0
  Settles entries p (done q) =
      All (Settled rows q.seen_keys) entries × Grows p.seen_keys q.seen_keys
  Settles entries p (threw q) = Unit

  step-Settles :
      (entry : Entry) (p : Progress D)
      → Settles (entry ∷ []) p (step eager appliers rows source_id entry p)
  step-Settles entry p =
      step_cases eager appliers rows source_id (Settles (entry ∷ []) p) entry p
        (λ seen. ((inl seen, tt), λ k h. h)) (λ ahead _. ((inr ahead, tt), λ k h. h))
        (λ _ _ ops _. ((inl (rw (==_refl entry.idempotency_key)), tt), λ k h. ground arith))
        (λ ops. tt) (λ _ _ _. ((inl (rw (==_refl entry.idempotency_key)), tt), λ k h. ground arith))

  loop-Settles :
      (entries : List Entry) (p : Progress D)
      → Settles entries p (loop eager appliers rows source_id entries p)
  unfolding loop
  loop-Settles [] p = (tt, λ k h. h)
  loop-Settles (entry ∷ entries) p =
      go (loop-Settles entries) (step eager appliers rows source_id entry p) (step-Settles entry p)
    where
      join :
          (q : Progress D) (r : Run D)
          → Settles (entry ∷ []) p (done q)
          → Settles entries q r
          → Settles (entry ∷ entries) p r
      join q (done s) h k = (
        ((Settled-Grows rows q.seen_keys s.seen_keys (entry ∷ []) k.1 h.0).0, k.0),
        λ key m. k.1 key (h.1 key m),
      )
      join q (threw s) h k = tt

      go :
          ((q : Progress D) → Settles entries q (loop eager appliers rows source_id entries q))
          → (r : Run D) → Settles (entry ∷ []) p r
          → Settles
              (entry ∷ entries)
              p
              (elim r [ done q ↦ loop eager appliers rows source_id entries q | threw q ↦ threw q ])
      go rest (done q) k = join q (loop eager appliers rows source_id entries q) k (rest q)
      go rest (threw q) k = tt

  -- Only the counts of duplicate and rejected entries move.
  abbrev Idle : Progress D → Run D → Type 0
  Idle p (done q) =
      (q.journal ≡ p.journal)
      × (q.ops ≡ p.ops)
      × (q.seen_keys ≡ p.seen_keys)
      × (q.high_watermark ≡ p.high_watermark)
      × (q.report.applied ≡ p.report.applied)
      × (q.report.quarantined ≡ p.report.quarantined)
  Idle p (threw q) = ⊥

  step-Idle :
      (entry : Entry) (p : Progress D)
      → Settled rows p.seen_keys entry
      → Idle p (step eager appliers rows source_id entry p)
  unfolding step
  step-Idle entry p settled = elim (Bool-cases (includes p.seen_keys entry.idempotency_key)) [
    | inl seen ↦ rw seen (refl, refl, refl, refl, refl, refl)
    | inr fresh ↦
        let ahead : ltb (authority_from_rows rows entry.event_id).epoch entry.epoch ≡ true =
          ground arith in
        rw fresh (rw ahead (refl, refl, refl, refl, refl, refl))
  ]

  loop-Idle :
      (entries : List Entry) (p : Progress D)
      → All (Settled rows p.seen_keys) entries
      → Idle p (loop eager appliers rows source_id entries p)
  unfolding loop
  loop-Idle [] p h = (refl, refl, refl, refl, refl, refl)
  loop-Idle (entry ∷ entries) p h =
      go (loop-Idle entries) (step eager appliers rows source_id entry p) (step-Idle entry p h.0)
    where
      join : (q : Progress D) (r : Run D) → Idle p (done q) → Idle q r → Idle p r
      join q (done s) h k = (k.0 ∙ h.0, k.1 ∙ h.1, k.2 ∙ h.2, k.3 ∙ h.3, k.4 ∙ h.4, k.5 ∙ h.5)
      join q (threw s) h k = k

      go :
          ((q : Progress D)
            → All (Settled rows q.seen_keys) entries
            → Idle q (loop eager appliers rows source_id entries q))
          → (r : Run D) → Idle p r
          → Idle p
              (elim r [ done q ↦ loop eager appliers rows source_id entries q | threw q ↦ threw q ])
      go rest (done q) k =
          join q (loop eager appliers rows source_id entries q) k
            (rest q (subst (λ seen. All (Settled rows seen) entries) (sym k.2) h.1))
      go rest (threw q) k = k

-- What the first run settled is settled for a run that starts from the journal it left.
Settled-Tracks :
    (rows : List AuthorityRow) (seen seen' : List String) (entries : List Entry)
    → ((k : String) → k ≢ "" → includes seen k ≡ includes seen' k)
    → All (λ entry. entry.idempotency_key ≢ "") entries
    → All (Settled rows seen) entries
    → All (Settled rows seen') entries
Settled-Tracks rows seen seen' [] t n h = tt
Settled-Tracks rows seen seen' (e ∷ es) t n h =
    (move h.0, Settled-Tracks rows seen seen' es t n.1 h.1)
  where
    move : Settled rows seen e → Settled rows seen' e
    move (inl k) = inl (sym (t e.idempotency_key n.0) ∙ k)
    move (inr k) = inr k

module _ {D : Type 0} (appliers : String → Option (Json → Ops D → Ops D × Bool)) where
  -- what the second sending of a batch gives
  abbrev pub Unchanged : ℕ → Batch → Report → Db D → Outcome D → Type 0
  Unchanged later batch r db (returned r' db') =
      (r'.applied ≡ 0)
      × (r'.quarantined ≡ 0)
      × (r'.high_watermark ≡ r.high_watermark)
      × (db'.journal ≡ db.journal)
      × (db'.ops ≡ db.ops)
      × (db'.authority ≡ db.authority)
  Unchanged later batch r db (failed db') = ⊥

  finish-Unchanged :
      (later : ℕ) (batch : Batch) (r : Report) (db : Db D) (run : Run D)
      → r.high_watermark ≡ max_seq batch.source_id db.journal
      → Idle appliers db.authority batch.source_id (start batch.source_id db) run
      → Unchanged later batch r db (finish batch.source_id later db run)
  finish-Unchanged later batch r db (done q) w h = (h.4, h.5, h.3 ∙ sym w, h.0, h.1, refl)
  finish-Unchanged later batch r db (threw q) w h = h

  -- With a driver that runs an insert without its being awaited, and a journal in which no
  -- idempotency key stands twice: a batch of entries with keys that are not empty, whose first
  -- reconciliation returned, sent again to the database that it left, applies and quarantines nothing, leaves the journal, the domain and audit
  -- tables and the authority rows as they are, and reports the same watermark.
  pub apply_journal_batch-resend :
      (now later : ℕ) (db : Db D) (batch : Batch) (r : Report) (db' : Db D)
      → Distinct (keys_of db.journal)
      → All (λ entry. entry.idempotency_key ≢ "") batch.entries
      → apply_journal_batch eager appliers true now db batch ≡ returned r db'
      → Unchanged later batch r db' (apply_journal_batch eager appliers true later db' batch)
  unfolding apply_journal_batch run_batch
  apply_journal_batch-resend now later db batch r db' distinct named e =
      go (run_batch eager appliers db batch)
        (loop-Settles appliers db.authority batch.source_id (sort_by_seq batch.entries)
          (start batch.source_id db))
        (run_batch-Tracks appliers db batch distinct) (run_batch-AtWatermark appliers db batch) e
    where
      go :
          (run : Run D)
          → Settles appliers db.authority batch.source_id
              (sort_by_seq batch.entries)
              (start batch.source_id db)
              run
          → Tracks (after run).journal (after run).seen_keys
          → (after run).high_watermark ≡ max_seq batch.source_id (after run).journal
          → finish batch.source_id now db run ≡ returned r db'
          → Unchanged later batch r db'
              (finish batch.source_id later db' (run_batch eager appliers db' batch))
      go (done q) s t w e =
          let kept : db.authority ≡ db'.authority = ground arith in
          let journaled : q.journal ≡ db'.journal = ground arith in
          let settled =
            Settled-Tracks db.authority q.seen_keys (keys_of q.journal) (sort_by_seq batch.entries)
              t.tracked (All-sort_by_seq (λ entry. entry.idempotency_key ≢ "") batch.entries named)
              s.0 in
          finish-Unchanged later batch r db' (run_batch eager appliers db' batch) (ground arith) (
            loop-Idle appliers db'.authority batch.source_id (sort_by_seq batch.entries)
              (start batch.source_id db')
              (subst (λ rows. All (Settled rows (keys_of db'.journal)) (sort_by_seq batch.entries))
                kept
                (subst
                  (λ journal.
                    All (Settled db.authority (keys_of journal)) (sort_by_seq batch.entries))
                  journaled settled)))
      go (threw q) s t w e = cc
