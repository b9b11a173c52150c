-- ===== src/Ec.antt =====
-- The embedded controller behind its Super I/O ports (daemon/src/ec).
pub mod Offsets
pub mod Host
pub mod Ports
pub mod Device
pub mod Probe
pub mod I2ec
pub mod Registers
pub mod ReadBack
pub mod Frame
