-- ===== src/Sync.antt =====
-- gmacko/packages/api/src/router/omnidat-sync.ts: split-authority sync of the event journal.
pub mod Rows
pub mod Authority
pub mod Batch
pub mod Transfer
pub mod Cloud
pub mod Pull
pub mod Sources
pub mod Status
