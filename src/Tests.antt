-- ===== src/Tests.antt =====
-- Runs of the development at concrete inputs.
mod Bench
mod Hardware
mod Client
mod Requests
mod Wire
mod Updates
mod Socket
mod Connection
mod Logs
mod Desktop
mod Telemetry
mod Start
mod Server
mod System
mod Running
