-- ===== src/SystemEvents.antt =====
-- Where the daemon's system events come from: the threads of daemon/src/services/systemd_service.rs
-- and the service of daemon/src/services/win_service.rs, each on the signals that it receives,
-- and what they read of the machine's names. A channel that is closed refuses an event.
pub mod Systemd
pub mod Windows
pub mod Names
pub mod PanicHook
