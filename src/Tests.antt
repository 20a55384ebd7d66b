-- ===== src/Tests.antt =====
-- Runs of the program's parts on concrete data.
mod Sync
mod Transfer
mod Bridge
mod Flags
mod Services
mod Access
mod Pad
mod Network
mod Worker
mod Wire
mod Lifecycle
