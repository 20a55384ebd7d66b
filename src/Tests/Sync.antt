-- ===== src/Tests/Sync.antt =====
-- Runs of omnidat-sync.ts: an event that passes from the cloud to one field kit and on to another.
use omnidat.Prelude.{
  ℕ, ◌+◌, ◌≤◌, String, Bool, true, Option, none, some, List, [], ◌∷◌, map, ◌≡◌, ◌≢◌, refl, arith,
  All, eq_iff,
}
use omnidat.Sync.Rows.{
  Json, null, Entry, AuthorityRow, ApplyStatus, applied, SyncSourceRow, AuditEvent, journal_op, Ops,
  Db, eager, lazy, inserted_all,
}
use omnidat.Sync.Authority.{authority_from_rows, latest_row, epoch_holder_row, fence_for_epoch}
use omnidat.Sync.Batch.{
  Batch, Report, returned, journal_row, sort_by_seq, insert_by_seq, max_seq, keys_of,
  is_current_holder, is_fenced_history, dispatch_op, accept, reconcile, step, loop,
  touch_sync_source, run_batch, apply_journal_batch,
}
use omnidat.Sync.Batch.Accounting.{written, apply_journal_batch-accounts}
use omnidat.Sync.Batch.Keys.{Distinct, database, apply_journal_batch-Distinct}
use omnidat.Sync.Batch.Lawful.{Lawful}
use omnidat.Sync.Batch.Sourcing.{log_row, redo, raised, apply_journal_batch-Explained}
use omnidat.Sync.Batch.Repeats.{apply_journal_batch-repeats}
use omnidat.Sync.Batch.Resend.{Unchanged, apply_journal_batch-resend}

abbrev pub no_appliers : String → Option (Json → Ops ℕ → Ops ℕ × Bool)
no_appliers op_type = none

-- the row by which the first kit holds the event at epoch 1
abbrev pub kit_row : AuthorityRow
kit_row = record {
  event_id = some "camp";
  epoch = some 1;
  holder = some "field";
  holder_source_id = some "kit";
  fence_seq = some 0;
}

abbrev pub kit_source : SyncSourceRow
kit_source = record {
  source_id = some "kit";
  source_kind = some "field-kit";
  token_hash = some "h";
  last_pushed_seq = some 0;
  last_sync_at = none;
  active = some true;
}

abbrev pub kit_db : Db ℕ
kit_db = record {
  authority = kit_row ∷ [];
  journal = [];
  sources = kit_source ∷ [];
  ops = record { tables = 0; audit = [] };
}

abbrev pub entry : (seq epoch : ℕ) → String → Entry
entry seq epoch key = record {
  seq = seq;
  event_id = some "camp";
  epoch = epoch;
  op_type = "note";
  payload = null;
  idempotency_key = key;
  payload_checksum = "";
  recorded_at = 0;
}

-- out of order, with a key sent twice, and one entry of an epoch that has not begun
abbrev push : Batch
push = record {
  source_id = "kit";
  entries = entry 2 1 "b" ∷ entry 1 1 "a" ∷ entry 3 7 "c" ∷ entry 2 1 "b" ∷ [];
}

abbrev pushed_report : Report
pushed_report = record {
  applied = 2;
  duplicate = 1;
  rejected_stale = 1;
  quarantined = 0;
  high_watermark = 2;
  holder = "field";
  epoch = 1;
}

abbrev pub pushed_db : Db ℕ
pushed_db = record {
  authority = kit_row ∷ [];
  journal =
      journal_row "kit" (entry 1 1 "a") applied ∷ journal_row "kit" (entry 2 1 "b") applied ∷ [];
  sources = record kit_source { last_pushed_seq = some 2; last_sync_at = some 5 } ∷ [];
  ops = record {
    tables = 0;
    audit =
        journal_op "note" "a" "kit" 1 (some "camp") null
        ∷ journal_op "note" "b" "kit" 2 (some "camp") null
        ∷ [];
  };
}

push_runs :
    apply_journal_batch eager no_appliers true 5 kit_db push ≡ returned pushed_report pushed_db
unfolding apply_journal_batch run_batch loop step reconcile accept dispatch_op is_current_holder
    is_fenced_history epoch_holder_row fence_for_epoch authority_from_rows latest_row sort_by_seq
    insert_by_seq max_seq keys_of touch_sync_source
push_runs = refl

push_keyed : All (λ (e : Entry). e.idempotency_key ≢ "") push.entries
push_keyed = (
  ground (arith, eq_iff "b" ""),
  (
    ground (arith, eq_iff "a" ""),
    (ground (arith, eq_iff "c" ""), (ground (arith, eq_iff "b" ""), tt)),
  ),
)

no_keys : Distinct (keys_of kit_db.journal)
unfolding keys_of
no_keys = tt

apply_journal_batch-accounts_example : (2 + 1 + 1 ≡ 4) × (0 ≤ 1) × (2 ≡ 0 + written eager (2 + 0))
apply_journal_batch-accounts_example =
    apply_journal_batch-accounts eager no_appliers 5 kit_db push pushed_report pushed_db push_runs

apply_journal_batch-Distinct_example : Distinct (
    keys_of
      (database no_appliers (apply_journal_batch eager no_appliers true 5 kit_db push)).journal)
apply_journal_batch-Distinct_example =
    apply_journal_batch-Distinct no_appliers eager true 5 kit_db push no_keys

apply_journal_batch-Explained_example :
    (log : List (Entry × ApplyStatus)) × (pushed_db.journal
      ≡ inserted_all eager kit_db.journal (map (log_row "kit") log))
    × (2 ≡ raised (max_seq "kit" kit_db.journal) log)
    × (pushed_db.ops ≡ redo no_appliers "kit" log kit_db.ops)
    × All (Lawful kit_db.authority "kit") log
apply_journal_batch-Explained_example =
    apply_journal_batch-Explained eager no_appliers 5 kit_db push pushed_report pushed_db push_runs

apply_journal_batch-resend_example :
    Unchanged no_appliers 8 push pushed_report pushed_db
      (apply_journal_batch eager no_appliers true 8 pushed_db push)
apply_journal_batch-resend_example =
    apply_journal_batch-resend no_appliers 5 8 kit_db push pushed_report pushed_db no_keys
      push_keyed push_runs

-- With a driver that waits to be awaited a batch sent twice is dispatched twice.
abbrev one : Batch
one = record { source_id = "kit"; entries = entry 1 1 "a" ∷ [] }

abbrev one_report : Report
one_report = record {
  applied = 1;
  duplicate = 0;
  rejected_stale = 0;
  quarantined = 0;
  high_watermark = 1;
  holder = "field";
  epoch = 1;
}

abbrev noted : List AuditEvent → Db ℕ
noted audit = record kit_db {
  sources = record kit_source { last_pushed_seq = some 1; last_sync_at = some 5 } ∷ [];
  ops = record { tables = 0; audit = audit };
}

abbrev note_a : AuditEvent
note_a = journal_op "note" "a" "kit" 1 (some "camp") null

one_runs :
    apply_journal_batch lazy no_appliers true 5 kit_db one
    ≡ returned one_report (noted (note_a ∷ []))
unfolding apply_journal_batch run_batch loop step reconcile accept dispatch_op is_current_holder
    is_fenced_history epoch_holder_row fence_for_epoch authority_from_rows latest_row sort_by_seq
    insert_by_seq max_seq keys_of touch_sync_source
one_runs = refl

one_again_runs :
    apply_journal_batch lazy no_appliers true 5 (noted (note_a ∷ [])) one
    ≡ returned one_report (noted (note_a ∷ note_a ∷ []))
unfolding apply_journal_batch run_batch loop step reconcile accept dispatch_op is_current_holder
    is_fenced_history epoch_holder_row fence_for_epoch authority_from_rows latest_row sort_by_seq
    insert_by_seq max_seq keys_of touch_sync_source
one_again_runs = refl

apply_journal_batch-repeats_example : ([] ≡ kit_db.journal) × (one_report ≡ one_report)
apply_journal_batch-repeats_example =
    apply_journal_batch-repeats no_appliers 5 5 kit_db one one_report one_report
      (noted (note_a ∷ [])) (noted (note_a ∷ note_a ∷ [])) one_runs one_again_runs
