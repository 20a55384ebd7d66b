-- ===== src/Network.antt =====
-- The operational state of the network and the operations on it.
pub mod State
pub mod Seed
pub mod Provisioning
pub mod Devices
pub mod Commerce
pub mod Orders
pub mod Commands
pub mod Acts
pub mod Accounts
pub mod Effects
pub mod Outcomes
pub mod Books
pub mod Ordering
pub mod Cards
pub mod Pads
