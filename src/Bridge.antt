-- ===== src/Bridge.antt =====
-- packages/matrix-bridge: store-and-forward mail and message boards, kept in a journal on disk.
pub mod Store
pub mod Server
