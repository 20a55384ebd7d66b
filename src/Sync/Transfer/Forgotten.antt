-- ===== src/Sync/Transfer/Forgotten.antt =====
-- Transfers and batches over a driver that runs a query only when it is awaited.
use omnidat.Prelude.{
  ap, subst, ◌+◌, Bool, true, false, Option, none, some, ◌++◌, ◌∷◌, [], ◌≡◌, refl, ◌∙◌, sym,
}
use omnidat.Sync.Rows.{Db, lazy, authority_transferred}
use omnidat.Sync.Batch.{max_seq}
use omnidat.Sync.Transfer.{
  Transfer, Transferred, Refusal, transferred, record_transfer, refuse_or, catch_up_guard,
  transfer_event_authority,
}
use omnidat.Sync.Transfer.TakesOver.{current}

module _ {D : Type 0} where
  -- the audit event of a transfer
  abbrev pub audited : Transfer → Transferred → Db D → Db D
  audited input t db = record db {
    ops = record db.ops {
      audit =
          db.ops.audit
          ++ authority_transferred input.event_id (current input db) input.to_holder
              input.to_source_id t.epoch t.fence_seq input.reason input.operator_id
            ∷ [];
    };
  }

  abbrev made : Transfer → Db D → Transferred
  made input db = record {
    event_id = input.event_id;
    epoch = (current input db).epoch + 1;
    holder = input.to_holder;
    holder_source_id = input.to_source_id;
    fence_seq = max_seq (current input db).holder_source_id db.journal;
  }

  made_again :
      (input : Transfer) (db : Db D)
      → catch_up_guard input db.journal ≡ none
      → transfer_event_authority lazy true input db
        ≡ transferred (made input db) (audited input (made input db) db)
  unfolding transfer_event_authority record_transfer
  made_again input db free = rw free refl

  unguarded :
      (available : Bool) (input : Transfer) (db : Db D) (t : Transferred) (db' : Db D)
      → transfer_event_authority lazy available input db ≡ transferred t db'
      → (available ≡ true) × (catch_up_guard input db.journal ≡ none)
  unfolding transfer_event_authority
  unguarded false input db t db' e = cc
  unguarded true input db t db' e = (refl, go (catch_up_guard input db.journal) refl e)
    where
      go :
          (g : Option Refusal)
          → catch_up_guard input db.journal ≡ g
          → refuse_or g (record_transfer lazy input (current input db) db) ≡ transferred t db'
          → catch_up_guard input db.journal ≡ none
      go none h e = h
      go (some why) h e = cc

  parts : (s t : Transferred) (a b : Db D) → transferred s a ≡ transferred t b → (s ≡ t) × (a ≡ b)
  parts s t a b e = (cc, cc)

  -- With a driver that runs an insert only when it is awaited: a transfer that is not refused leaves
  -- all but the audit table as it was, so that the same transfer asked for again is made again, and
  -- reported with the same epoch and the same fence.
  pub transfer_event_authority-forgets :
      (available : Bool) (input : Transfer) (db : Db D) (t : Transferred) (db' : Db D)
      → transfer_event_authority lazy available input db ≡ transferred t db'
      → (db' ≡ audited input t db)
        × (transfer_event_authority lazy available input db' ≡ transferred t (audited input t db'))
  transfer_event_authority-forgets available input db t db' e =
      let (persisted, free) = unguarded available input db t db' e in
      let (same, grown) = parts (made input db) t (audited input (made input db) db) db' (
        sym (made_again input db free)
        ∙ (ap (λ b. transfer_event_authority lazy b input db) (sym persisted) ∙ e)) in
      let after : db' ≡ audited input t db = sym grown ∙ ap (λ m. audited input m db) same in
      (
        after,
        subst
            (λ d.
              transfer_event_authority lazy available input d ≡ transferred t (audited input t d))
            (sym after)
            (ap (λ b. transfer_event_authority lazy b input (audited input t db)) persisted
              ∙ made_again input (audited input t db) free
              ∙ ap (λ m. transferred m (audited input m (audited input t db))) same),
      )
