-- ===== src/Pad.antt =====
-- The telnet PAD: the byte machine of a session and the commands that it dispatches to.
pub mod Telnet
pub mod Line
pub mod Segments
pub mod Editing
pub mod Typing
pub mod Terminal
pub mod Client
pub mod Messaging
pub mod Session
pub mod Verbs
pub mod Dispatch
pub mod Agreement
pub mod Modes
pub mod Wire
