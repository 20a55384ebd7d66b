-- ===== src/Sync/Rows.antt =====
-- The rows that omnidat-sync.ts reads and writes, and the tables that hold them.
use omnidat.Prelude.{ℕ, String, Bool, Option, List, [], ◌∷◌, ◌++◌}

-- A JSON value. A number is kept as the text that JSON gives it.
mutual
  pub data Json : Type 0 where
    null : Json
    bool : Bool → Json
    num : String → Json
    str : String → Json
    arr : Items → Json
    obj : Fields → Json

  pub data Items : Type 0 where
    nil : Items
    cons : Json → Items → Items

  pub data Fields : Type 0 where
    end : Fields
    field : String → Json → Fields → Fields

-- `JournalEntryInput`
pub record Entry : Type 0 where
  pub seq : ℕ
  pub event_id : Option String
  pub epoch : ℕ
  pub op_type : String
  pub payload : Json
  pub idempotency_key : String
  pub payload_checksum : String
  pub recorded_at : ℕ

-- `JournalAuthority`
pub record Authority : Type 0 where
  pub holder : String
  pub holder_source_id : String
  pub epoch : ℕ
  pub fence_seq : Option ℕ

-- `AuthorityRow`
pub record AuthorityRow : Type 0 where
  pub event_id : Option String
  pub epoch : Option ℕ
  pub holder : Option String
  pub holder_source_id : Option String
  pub fence_seq : Option ℕ

pub data ApplyStatus : Type 0 where
  applied quarantined : ApplyStatus

-- `JournalRow` and `PullRow`: every column may be absent.
pub record JournalRow : Type 0 where
  pub source_id : Option String
  pub seq : Option ℕ
  pub event_id : Option String
  pub epoch : Option ℕ
  pub op_type : Option String
  pub payload : Option Json
  pub idempotency_key : Option String
  pub payload_checksum : Option String
  pub recorded_at : Option ℕ
  pub apply_status : Option ApplyStatus

-- `SyncSourceRow`
pub record SyncSourceRow : Type 0 where
  pub source_id : Option String
  pub source_kind : Option String
  pub token_hash : Option String
  pub last_pushed_seq : Option ℕ
  pub last_sync_at : Option ℕ
  pub active : Option Bool

-- The rows of omnidat_audit_event that this file writes.
pub data AuditEvent : Type 0 where
  journal_op : (op_type key source_id : String) → ℕ → Option String → Json → AuditEvent
  source_registered : (source_id source_kind operator_id : String) → AuditEvent
  source_rotated : (source_id source_kind operator_id : String) → AuditEvent
  authority_transferred :
      (event_id : String)
      → Authority
      → (to_holder to_source_id : String) → (epoch fence_seq : ℕ) → (reason operator_id : String)
      → AuditEvent

-- What the appliers of OP_APPLIERS write: the domain tables, and the audit table.
pub record Ops (D : Type 0) : Type 0 where
  pub tables : D
  pub audit : List AuditEvent

-- What the driver behind `OmnidatSyncDb` does with an insert that is built and not awaited: it runs
-- it, as the interface's `values` of a plain value suggests, or it never runs it, as a driver does
-- whose queries run when they are awaited.
pub data Driver : Type 0 where
  eager lazy : Driver

-- a table after an insert that is not awaited
abbrev pub inserted : {A : Type 0} → Driver → List A → A → List A
inserted eager rows row = rows ++ row ∷ []
inserted lazy rows row = rows

-- a table after several of them
abbrev pub inserted_all : {A : Type 0} → Driver → List A → List A → List A
inserted_all eager rows added = rows ++ added
inserted_all lazy rows added = rows

-- The database behind `OmnidatSyncDb`. An insert that runs appends to its table.
pub record Db (D : Type 0) : Type 0 where
  pub authority : List AuthorityRow
  pub journal : List JournalRow
  pub sources : List SyncSourceRow
  pub ops : Ops D
