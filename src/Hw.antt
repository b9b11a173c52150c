-- ===== src/Hw.antt =====
-- The hardware functions of the daemon (daemon/src/ec/hw).
pub mod Fan
pub mod Charge
pub mod Getters
pub mod Keyboard
pub mod Power
pub mod Led
pub mod Frame
