-- ===== src/Gui.antt =====
-- The desktop application (gui/src).
pub mod Updates
pub mod Calendar
pub mod State
pub mod Arguments
pub mod Desktop
pub mod Frame
pub mod Commands
pub mod Poller
pub mod Tray
pub mod Shell
pub mod Logging
pub mod Diagnostics
