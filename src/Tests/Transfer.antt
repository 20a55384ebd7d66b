-- ===== src/Tests/Transfer.antt =====
-- Runs of transferEventAuthority, and of what the cloud and the kits may do after it.
use mathlib.Core.List.{Memᴰ, Perm}
use omnidat.Prelude.{
  ℕ, ◌+◌, ◌<◌, String, Bool, true, Option, none, some, List, [], ◌∷◌, ◌++◌, ◌≡◌, ◌≢◌, ◌↔◌, ◌⊎◌,
  refl, arith, All, filter, eq_iff, string_eq, option_eq,
}
use omnidat.Sync.Rows.{
  Json, null, Entry, AuthorityRow, applied, quarantined, JournalRow, source_rotated,
  authority_transferred, journal_op, Db, eager, lazy,
}
use omnidat.Sync.Authority.{authority_from_rows, latest_row}
use omnidat.Sync.Batch.{Batch, Report, journal_row, max_seq}
use omnidat.Sync.Transfer.{
  Transfer, Transferred, transferred, lookup, raise_max, max_by_source, first_behind,
  catch_up_guard, transfer_row, record_transfer, transfer_event_authority,
}
use omnidat.Sync.Transfer.TakesOver.{transfer_event_authority-takes_over}
use omnidat.Sync.Transfer.CatchUp.{HasSeen, catch_up_guard-none_iff}
use omnidat.Sync.Transfer.Forgotten.{audited, transfer_event_authority-forgets}
use omnidat.Sync.Transfer.Single.{IsSingle, transfer_event_authority-IsSingle}
use omnidat.Sync.Cloud
use omnidat.Sync.Cloud.{
  CloudWrite, cloud_key, cloud_entry, with_entry, append_cloud_journal_entry, journal_cloud_write,
}
use omnidat.Sync.Cloud.Laws.{
  append_cloud_journal_entry-fresh, append_cloud_journal_entry-after_transfer,
}
use omnidat.Sync.Pull.{is_unseen, pull_journal_entries}
use omnidat.Sync.Pull.Laws.{IsDue, pull_journal_entries-IsDue}
use omnidat.Sync.Sources.{
  Registration, Registered, rotate, is_registered, verify_sync_token, register_sync_source,
}
use omnidat.Sync.Sources.Tokens.{register_sync_source-revokes}
use omnidat.Tests.Sync.{kit_row, kit_source, kit_db, entry, pushed_db}

abbrev hand_over : Transfer
hand_over = record {
  event_id = "camp";
  to_holder = "field";
  to_source_id = "second";
  reason = "noon";
  operator_id = "op";
  target_watermarks = some (("kit", 2) ∷ []);
}

abbrev handed : Transferred
handed = record {
  event_id = "camp";
  epoch = 2;
  holder = "field";
  holder_source_id = "second";
  fence_seq = 2;
}

abbrev second_row : AuthorityRow
second_row = record {
  event_id = some "camp";
  epoch = some 2;
  holder = some "field";
  holder_source_id = some "second";
  fence_seq = some 2;
}

abbrev handed_db : Db ℕ
handed_db = record pushed_db {
  authority = kit_row ∷ second_row ∷ [];
  ops = record pushed_db.ops {
    audit =
        pushed_db.ops.audit
        ++ authority_transferred "camp"
            (record { holder = "field"; holder_source_id = "kit"; epoch = 1; fence_seq = some 0 })
            "field" "second" 2 2 "noon" "op"
          ∷ [];
  };
}

hand_over_runs :
    transfer_event_authority eager true hand_over pushed_db ≡ transferred handed handed_db
unfolding transfer_event_authority record_transfer transfer_row catch_up_guard first_behind
    max_by_source raise_max lookup authority_from_rows latest_row max_seq
hand_over_runs = refl

transfer_event_authority-takes_over_example :
    (2 ≡ 1 + 1)
    × (2 ≡ max_seq "kit" pushed_db.journal)
    × (authority_from_rows handed_db.authority (some "camp")
        ≡ record { holder = "field"; holder_source_id = "second"; epoch = 2; fence_seq = some 2 })
    × (handed_db.journal ≡ pushed_db.journal)
    × (handed_db.ops.tables ≡ pushed_db.ops.tables)
unfolding authority_from_rows latest_row
transfer_event_authority-takes_over_example =
    transfer_event_authority-takes_over hand_over pushed_db eager true handed handed_db
      (some "camp") hand_over_runs

catch_up_guard-none_iff_example :
    (catch_up_guard hand_over pushed_db.journal ≡ none)
    ↔ ((hand_over.to_holder ≡ "cloud") ⊎ All (HasSeen "second" (("kit", 2) ∷ [])) pushed_db.journal)
catch_up_guard-none_iff_example = catch_up_guard-none_iff hand_over pushed_db.journal

transfer_event_authority-IsSingle_example : IsSingle handed_db.authority
transfer_event_authority-IsSingle_example =
    transfer_event_authority-IsSingle eager true hand_over pushed_db handed handed_db hand_over_runs
      (tt, tt)

-- the same transfer with a driver that waits to be awaited
abbrev unhanded_db : Db ℕ
unhanded_db = audited hand_over handed pushed_db

unhanded_runs :
    transfer_event_authority lazy true hand_over pushed_db ≡ transferred handed unhanded_db
unfolding transfer_event_authority record_transfer transfer_row catch_up_guard first_behind
    max_by_source raise_max lookup authority_from_rows latest_row max_seq
unhanded_runs = refl

transfer_event_authority-forgets_example :
    (unhanded_db ≡ audited hand_over handed pushed_db)
    × (transfer_event_authority lazy true hand_over unhanded_db
        ≡ transferred handed (audited hand_over handed unhanded_db))
transfer_event_authority-forgets_example =
    transfer_event_authority-forgets true hand_over pushed_db handed unhanded_db unhanded_runs

-- one entry that the fence lets in, and one beyond it
abbrev late : Batch
late = record { source_id = "kit"; entries = entry 2 1 "e" ∷ entry 3 1 "d" ∷ [] }

abbrev late_report : Report
late_report = record {
  applied = 1;
  duplicate = 0;
  rejected_stale = 1;
  quarantined = 1;
  high_watermark = 3;
  holder = "field";
  epoch = 2;
}

abbrev late_db : Db ℕ
late_db = record handed_db {
  journal =
      handed_db.journal
      ++ journal_row "kit" (entry 2 1 "e") applied
        ∷ journal_row "kit" (entry 3 1 "d") quarantined
        ∷ [];
  sources = record kit_source { last_pushed_seq = some 3; last_sync_at = some 9 } ∷ [];
  ops = record handed_db.ops {
    audit = handed_db.ops.audit ++ journal_op "note" "e" "kit" 2 (some "camp") null ∷ [];
  };
}

abbrev no_checksum : Json → String
no_checksum payload = ""

abbrev note : Option String → CloudWrite
note event_id = record { event_id = event_id; op_type = "note"; payload = null }

-- a journal in which the cloud has written once
abbrev cloud_row : JournalRow
cloud_row = journal_row "cloud" (record (entry 1 0 "cloud:1") { event_id = none }) applied

abbrev cloud_db : Db ℕ
cloud_db = record pushed_db { journal = cloud_row ∷ [] }

abbrev written : Entry
written =
    cloud_entry no_checksum 9 (authority_from_rows cloud_db.authority none) (note none) cloud_db

cloud_write_runs :
    append_cloud_journal_entry eager no_checksum true 9 (note none) cloud_db
    ≡ Cloud.appended written (with_entry eager written cloud_db)
unfolding append_cloud_journal_entry authority_from_rows latest_row
cloud_write_runs = refl

append_cloud_journal_entry-fresh_example :
    (1 < written.seq) × (cloud_key 1 ≢ written.idempotency_key)
append_cloud_journal_entry-fresh_example =
    append_cloud_journal_entry-fresh eager no_checksum true 9 (note none) cloud_db written
      (with_entry eager written cloud_db) cloud_row cloud_write_runs (Memᴰ.head refl) refl

append_cloud_journal_entry-after_transfer_example :
    append_cloud_journal_entry eager no_checksum true 9 (note (some "camp")) handed_db
    ≡ Cloud.refused (some "camp") "field" 2
append_cloud_journal_entry-after_transfer_example =
    append_cloud_journal_entry-after_transfer eager no_checksum true hand_over pushed_db handed
      handed_db 9 (note (some "camp")) hand_over_runs (ground (arith, eq_iff "field" "cloud")) refl

abbrev any_order : String → String → Bool
any_order left right = true

pull_journal_entries-IsDue_example :
    Perm
      (pull_journal_entries any_order (some pushed_db) "second" (("kit", 1) ∷ []))
      (filter (is_unseen "second" (("kit", 1) ∷ [])) pushed_db.journal)
    × ((row : JournalRow)
        → (is_unseen "second" (("kit", 1) ∷ []) row ≡ true) ↔ IsDue "second" (("kit", 1) ∷ []) row)
pull_journal_entries-IsDue_example =
    pull_journal_entries-IsDue any_order pushed_db "second" (("kit", 1) ∷ [])

-- a hash that is one to one
abbrev same_text : String → String
same_text s = s

abbrev registration : Registration
registration = record { source_id = "kit"; source_kind = none; operator_id = "op" }

abbrev registered : Registered
registered = record {
  source_id = "kit";
  source_kind = "field-kit";
  sync_token = "t";
  rotated = true;
}

abbrev rotated_db : Db ℕ
rotated_db = record kit_db {
  sources = record kit_source { token_hash = some "t" } ∷ [];
  ops = record { tables = 0; audit = source_rotated "kit" "field-kit" "op" ∷ [] };
}

registration_runs :
    register_sync_source same_text eager true "t" registration kit_db
    ≡ some (registered, rotated_db)
unfolding register_sync_source is_registered rotate
registration_runs = refl

register_sync_source-revokes_example :
    verify_sync_token same_text (some rotated_db) "h" (some "kit") ≡ none
register_sync_source-revokes_example =
    register_sync_source-revokes same_text eager true "t" registration kit_db registered rotated_db
      "h" registration_runs (ground (arith, eq_iff "h" "t"))
