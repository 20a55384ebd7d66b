-- ===== src/Sync/Cloud/Laws.antt =====
-- The cloud journals its own writes only while it holds the event, each under a new number and key.
use mathlib.Core.List.{Memᴰ}
use omnidat.Prelude.{
  All-mem, ℕ, ◌+◌, ◌≤◌, ◌<◌, String, Bool, true, Option, some, get_or, ◌≡◌, ◌≢◌, sym, ap, ◌∙◌,
  arith, ==_refl, string_eq, option_eq, eq_iff, numeral_injective,
}
use omnidat.Sync.Rows.{Json, Entry, JournalRow, applied, Db, Driver, eager, lazy, inserted}
use omnidat.Sync.Authority.{authority_from_rows}
use omnidat.Sync.Batch.{max_seq, journal_row}
use omnidat.Sync.Batch.Watermark.{max_seq-bounds}
use omnidat.Sync.Cloud.{
  CloudWrite, refused, appended, cloud_key, cloud_entry, append_cloud_journal_entry,
  journal_cloud_write,
}
use omnidat.Sync.Transfer.{Transfer, Transferred, transferred, transfer_event_authority}
use omnidat.Sync.Transfer.TakesOver.{after_insert, transfer_event_authority-takes_over}
use omnidat.Sync.Transfer.Forgotten.{audited, transfer_event_authority-forgets}

cloud_key-injective : (m n : ℕ) → cloud_key m ≡ cloud_key n → m ≡ n
unfolding cloud_key
cloud_key-injective m n = numeral_injective 10 (omega arith) (omega arith) "cloud:" m n

module _ {D : Type 0} (driver : Driver) (checksum : Json → String) where
  -- A write that is journaled is inserted into the journal, as an applied entry of the cloud, which
  -- holds the event, at the epoch that it holds.
  pub append_cloud_journal_entry-appends :
      (available : Bool) (now : ℕ) (input : CloudWrite) (db : Db D) (entry : Entry) (db' : Db D)
      → append_cloud_journal_entry driver checksum available now input db ≡ appended entry db'
      → ((authority_from_rows db.authority input.event_id).holder ≡ "cloud")
        × (entry.epoch ≡ (authority_from_rows db.authority input.event_id).epoch)
        × (entry.event_id ≡ input.event_id)
        × (db'.journal ≡ inserted driver db.journal (journal_row "cloud" entry applied))
  unfolding append_cloud_journal_entry cloud_entry
  append_cloud_journal_entry-appends available now input db entry db' e = (
    ground (arith, eq_iff (authority_from_rows db.authority input.event_id).holder "cloud"),
    ground arith,
    ground arith,
    ground arith,
  )

  -- The sequence number of a write that is journaled is above that of every row of the cloud in
  -- the old journal, and its key differs from the key made for that number.
  pub append_cloud_journal_entry-fresh :
      (available : Bool) (now : ℕ) (input : CloudWrite) (db : Db D) (entry : Entry) (db' : Db D)
      (row : JournalRow)
      → append_cloud_journal_entry driver checksum available now input db ≡ appended entry db'
      → Memᴰ row db.journal
      → row.source_id ≡ some "cloud"
      → (get_or row.seq 0 < entry.seq) × (cloud_key (get_or row.seq 0) ≢ entry.idempotency_key)
  unfolding append_cloud_journal_entry cloud_entry
  append_cloud_journal_entry-fresh available now input db entry db' row e listed own =
      let number : max_seq "cloud" db.journal + 1 ≡ entry.seq = ground arith in
      let key : cloud_key entry.seq ≡ entry.idempotency_key =
        ap cloud_key (sym number) ∙ ground arith in
      let below : get_or row.seq 0 < entry.seq = omega (
        arith,
        All-mem (λ r. r.source_id ≡ some "cloud" → get_or r.seq 0 ≤ max_seq "cloud" db.journal)
            db.journal listed (max_seq-bounds "cloud" db.journal) own,
      ) in
      (
        below,
        λ same.
            absurd
              (omega (arith, cloud_key-injective (get_or row.seq 0) entry.seq (same ∙ sym key))),
      )

  -- `journalCloudWrite` never throws, whoever holds the event.
  pub journal_cloud_write-ne-refused :
      (available : Bool) (now : ℕ) (input : CloudWrite) (db : Db D) (event_id : Option String)
      (holder : String) (epoch : ℕ)
      → journal_cloud_write driver checksum available now input db ≢ refused event_id holder epoch
  unfolding journal_cloud_write append_cloud_journal_entry
  journal_cloud_write-ne-refused available now input db event_id holder epoch = ground arith

  append_cloud_journal_entry-refused :
      (available : Bool) (input : Transfer) (db : Db D) (t : Transferred) (db' : Db D) (now : ℕ)
      (write : CloudWrite)
      → transfer_event_authority eager available input db ≡ transferred t db'
      → input.to_holder ≢ "cloud"
      → write.event_id ≡ some input.event_id
      → append_cloud_journal_entry driver checksum true now write db'
        ≡ refused (some input.event_id) input.to_holder t.epoch
  unfolding append_cloud_journal_entry
  append_cloud_journal_entry-refused available input db t db' now write moved away event =
      let held : authority_from_rows db'.authority write.event_id ≡ record {
        holder = input.to_holder;
        holder_source_id = input.to_source_id;
        epoch = t.epoch;
        fence_seq = some t.fence_seq;
      } =
        ap (λ id. authority_from_rows db'.authority id) event
        ∙ (transfer_event_authority-takes_over input db eager available t db' (some input.event_id)
            moved).2
        ∙ rw (==_refl input.event_id) in
      rw (held, event) (ground (arith, eq_iff input.to_holder "cloud"))

-- After an event was transferred to a holder that is not the cloud, and with a driver that runs the
-- transfer's insert, which is not awaited, the cloud's own appends to the event are refused with that
-- holder and its epoch; with one that does not, they are decided as they were on the database from
-- before the transfer, of which only the audit table has changed.
pub append_cloud_journal_entry-after_transfer :
    {D : Type 0} (driver : Driver) (checksum : Json → String) (available : Bool) (input : Transfer)
    (db : Db D) (t : Transferred) (db' : Db D) (now : ℕ) (write : CloudWrite)
    → transfer_event_authority driver available input db ≡ transferred t db'
    → input.to_holder ≢ "cloud"
    → write.event_id ≡ some input.event_id
    → append_cloud_journal_entry driver checksum true now write db'
      ≡ after_insert driver
          (refused (some input.event_id) input.to_holder t.epoch)
          (append_cloud_journal_entry driver checksum true now write (audited input t db))
append_cloud_journal_entry-after_transfer eager checksum available input db t db' now write moved
      away event =
    append_cloud_journal_entry-refused eager checksum available input db t db' now write moved away
      event
append_cloud_journal_entry-after_transfer lazy checksum available input db t db' now write moved
      away event =
    ap (append_cloud_journal_entry lazy checksum true now write)
      (transfer_event_authority-forgets available input db t db' moved).0
