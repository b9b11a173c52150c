-- ===== src/Ipc.antt =====
-- The crate `ipc`: the settings, the messages, and the framed connection over a local socket.
pub mod Settings
pub mod Breath
pub mod Message
pub mod Wire
