-- ===== src/Packet.antt =====
-- The X.25 network layer: clear codes, and the budgets of the access transports.
pub mod Clearing
pub mod Transport
