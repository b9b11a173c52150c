-- ===== src/Handlers.antt =====
-- The daemon's request handlers and its stored settings (daemon/src/handlers.rs).
pub mod Frame
pub mod Settings
pub mod Requests
pub mod Stored
pub mod Moves
pub mod Safe
pub mod Telemetry
pub mod Answers
pub mod Readings
pub mod Setters
pub mod Success
