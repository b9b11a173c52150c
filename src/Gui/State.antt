-- ===== src/Gui/State.antt =====
-- What the desktop application keeps: gui/src/state.rs. A `f32` that holds a `u8` or a `u16` is that
-- number, since every such value is exact.
use lecoo_control_center.Base.{ℕ, Bool, false, Option, none}
use lecoo_control_center.Base.Text.{Text}

pub record Telemetry : Type 0 where
  pub cpu_temp_c : ℕ
  pub sys_temp_c : ℕ
  pub cpu_fan_rpm : ℕ
  pub gpu_fan_rpm : ℕ
  pub battery_percent : ℕ
  pub charge_limit_min : ℕ
  pub charge_limit_max : ℕ
  pub ac_connected : Option Bool
  pub timestamp_ms : ℕ

pub data ConnectionStatus : Type 0 where
  disconnected connecting : ConnectionStatus
  connected : ℕ × ℕ → ConnectionStatus
  error : Text → ConnectionStatus

pub record AppState : Type 0 where
  pub last_telemetry : Option Telemetry
  pub connection : ConnectionStatus
  pub last_connection_error : Option Text
  -- Whether the `Notify` holds a permit, that is, whether the next wait on it returns at once.
  pub reconnect_signal : Bool
  pub poll_paused : Bool
  pub poll_interval_ms : ℕ

-- `AppState::new`
abbrev pub new_state : AppState
new_state = record {
  last_telemetry = none;
  connection = ConnectionStatus.disconnected;
  last_connection_error = none;
  reconnect_signal = false;
  poll_paused = false;
  poll_interval_ms = 3000;
}
