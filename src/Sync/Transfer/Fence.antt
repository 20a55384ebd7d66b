-- ===== src/Sync/Transfer/Fence.antt =====
-- After a transfer the outgoing source can add nothing to its epoch beyond the fence.
use omnidat.Prelude.{◌+◌, ◌≤◌, ◌<◌, String, some, List, ◌≢◌, ◌⊎◌, string_eq, option_eq}
use omnidat.Sync.Rows.{Entry, Authority, ApplyStatus, applied, quarantined}
use omnidat.Sync.Batch.{Batch}
use omnidat.Sync.Batch.Lawful.{Lawful}
use omnidat.Sync.Transfer.{Transfer, Transferred}

-- The entry is of an epoch before the transfer's; if of the one just before, within the fence.
abbrev pub IsPast : Transferred → Entry → Type 0
IsPast t e = (e.epoch < t.epoch) × ((e.epoch + 1 ≢ t.epoch) ⊎ (e.seq ≤ t.fence_seq))

-- An entry of the log that was applied to the event is past; the rest of the log is free.
abbrev pub AppliedIsPast : String → Transferred → Entry × ApplyStatus → Type 0
AppliedIsPast event_id t (e, applied) = (e.event_id ≢ some event_id) ⊎ IsPast t e
AppliedIsPast event_id t (e, quarantined) = Unit
