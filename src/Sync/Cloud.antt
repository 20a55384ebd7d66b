-- ===== src/Sync/Cloud.antt =====
-- `journalCloudWrite` and `appendCloudJournalEntry`: the server's own entries in the journal.
use omnidat.Prelude.{
  ℕ, ◌+◌, String, Bool, Option, [], ◌∷◌, ◌++◌, ◌==◌, if◌then◌else◌, nat_eq, string_eq, option_eq,
  numeral,
}
pub mod Laws
use Prim.Native.String.{◌++◌ as text_append}
use omnidat.Sync.Rows.{Json, Entry, Authority, applied, Db, Driver, inserted}
use omnidat.Sync.Authority.{authority_from_rows}
use omnidat.Sync.Batch.{max_seq, journal_row}

-- the `input`
pub record CloudWrite : Type 0 where
  pub event_id : Option String
  pub op_type : String
  pub payload : Json

pub data Outcome (D : Type 0) : Type 0 where
  skipped : Outcome D
  refused : (event_id : Option String) → (holder : String) → (epoch : ℕ) → Outcome D
  appended : Entry → Db D → Outcome D

-- `cloud:${seq}`
pub cloud_key : ℕ → String
cloud_key seq = text_append "cloud:" (numeral 10 seq)

-- `checksum` is SHA-256 of a text, `canonical` the text of a payload.
module _ {D : Type 0} (checksum : Json → String) where
  -- the entry that `appendCloudJournalEntry` inserts
  pub cloud_entry : ℕ → Authority → CloudWrite → Db D → Entry
  unfolding cloud_key
  cloud_entry now authority input db = record {
    seq = max_seq "cloud" db.journal + 1;
    event_id = input.event_id;
    epoch = authority.epoch;
    op_type = input.op_type;
    payload = input.payload;
    idempotency_key = cloud_key (max_seq "cloud" db.journal + 1);
    payload_checksum = checksum input.payload;
    recorded_at = now;
  }

module _ {D : Type 0} where
  abbrev pub with_entry : Driver → Entry → Db D → Db D
  with_entry driver entry db = record db {
    journal = inserted driver db.journal (journal_row "cloud" entry applied);
  }

module _ {D : Type 0} (driver : Driver) (checksum : Json → String) where
  unfoldable pub append_cloud_journal_entry : Bool → ℕ → CloudWrite → Db D → Outcome D
  append_cloud_journal_entry available now input db =
      if available
      then (let authority = authority_from_rows db.authority input.event_id in
          if authority.holder == "cloud"
          then appended (cloud_entry checksum now authority input db)
              (with_entry driver (cloud_entry checksum now authority input db) db)
          else refused input.event_id authority.holder authority.epoch)
      else skipped

  pub journal_cloud_write : Bool → ℕ → CloudWrite → Db D → Outcome D
  journal_cloud_write available now input db =
      if available
      then (if (authority_from_rows db.authority input.event_id).holder == "cloud"
          then append_cloud_journal_entry available now input db
          else skipped)
      else skipped
