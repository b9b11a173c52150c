-- ===== src/State.antt =====
-- The state that the daemon's calls read and change: the world outside, and the daemon's statics
-- and atomics (daemon/src/main.rs, daemon/src/ec/mod.rs, daemon/src/ec/hw/led.rs,
-- daemon/src/telemetry/mod.rs). Logging is not part of it.
use lecoo_control_center.Base.{ℕ, Bool, Option, List}
use lecoo_control_center.Base.Action.{Action}
use lecoo_control_center.Ipc.Settings.{CurrentSettings}
use lecoo_control_center.Ipc.Message.{TelemetryData}

pub record Statics : Type 0 where
  -- `IS_LED_ALREADY_CUSTOM`
  pub is_led_already_custom : Bool
  -- `STATE`, `none` until it is set, and whether another thread holds its mutex.
  pub settings : Option CurrentSettings
  pub state_locked : Bool
  -- `TELEMETRY_ENABLED`
  pub telemetry_enabled : Bool
  -- `TELEMETRY_ID`
  pub telemetry_id : ℕ
  -- `TELEMETRY_TX`, `none` until it is set: the messages sent and not received yet.
  pub telemetry_tx : Option (List TelemetryData)

pub record Daemon (W : Type 0) : Type 0 where
  pub world : W
  -- `EcDevice::lock_held_since_ms`
  pub lock_held_since_ms : ℕ
  pub statics : Statics

abbrev pub on_world : {W A : Type 0} → Action W A → Action (Daemon W) A
on_world m s = ((m s.world).0, record s { world = (m s.world).1 })
