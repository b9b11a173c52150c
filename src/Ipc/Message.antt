-- ===== src/Ipc/Message.antt =====
-- The requests and responses of the protocol (ipc/src/lib.rs, ipc/src/structs.rs).
use lecoo_control_center.Base.{ℕ, Bool}
use lecoo_control_center.Base.Text.{Text}
use lecoo_control_center.Ipc.Settings.{
  PowerProfile, FanIndex, FanMode, KeyboardBacklightLevel, ChargeLimit, PowerLedMode,
  CurrentSettings,
}

pub data DaemonCommand : Type 0 where
  restore_defaults get_settings apply_settings get_telemetry_id : DaemonCommand
  activate_telemetry : Bool → DaemonCommand
  activate_process_suspend : Bool → DaemonCommand
  run_prepare_shutdown run_prepare_suspend run_prepare_resume : DaemonCommand

pub data DaemonResponse : Type 0 where
  settings : CurrentSettings → DaemonResponse
  telemetry_id : ℕ → DaemonResponse

pub data IpcRequest : Type 0 where
  get_system_state get_fans_rpm get_temperatures get_charge_limit get_power_profile : IpcRequest
  get_keyboard_backlight : IpcRequest
  set_power_profile : PowerProfile → IpcRequest
  set_fan_mode : FanIndex → FanMode → IpcRequest
  set_keyboard_backlight : KeyboardBacklightLevel → IpcRequest
  set_charge_limit : ChargeLimit → IpcRequest
  set_led_mode : PowerLedMode → IpcRequest
  daemon_command : DaemonCommand → IpcRequest

pub data IpcResponse : Type 0 where
  success : IpcResponse
  system_info : Text → Text → ℕ → Text → IpcResponse
  fan_rpm : ℕ → ℕ → IpcResponse
  temp : ℕ → ℕ → IpcResponse
  charge_limit : ℕ → ℕ → ℕ → IpcResponse
  keyboard_backlight : KeyboardBacklightLevel → IpcResponse
  power_limit : PowerProfile → IpcResponse
  daemon_response : DaemonResponse → IpcResponse
  telemetry_disabled_info : IpcResponse
  error : Text → IpcResponse

pub data TelemetryData : Type 0 where
  startup : Text → ℕ → Text → Text → Text → TelemetryData
  status : PowerProfile → ℕ × ℕ → ℕ × ℕ → TelemetryData
  panic : Text → TelemetryData

pub record TelemetryPayload : Type 0 where
  pub id : ℕ
  pub content : TelemetryData
