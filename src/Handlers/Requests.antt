-- ===== src/Handlers/Requests.antt =====
-- `do_work` and the handlers that it calls (daemon/src/handlers.rs), with `enable` and `disable` of
-- daemon/src/telemetry/mod.rs.
use lecoo_control_center.Base.{Bool, true, false, ◌++◌}
use lecoo_control_center.Base.Text.{Text, codes, hex_byte}
use lecoo_control_center.Base.Action.{
  Action, Outcome, ok, err, panicked, pure, panic, attempt, modify, ◌>>=◌, ◌>>◌,
}
use lecoo_control_center.State.{Daemon}
use lecoo_control_center.Ec.Host.{Host}
use lecoo_control_center.Ec.Device.{EcDevice}
use lecoo_control_center.Ipc.Settings.{
  CurrentSettings, PowerProfile, KeyboardBacklightLevel, FanIndex, FanMode, ChargeLimit,
  PowerLedMode, cpu, gpu,
}
use lecoo_control_center.Ipc.Message.{DaemonCommand, DaemonResponse, IpcRequest, IpcResponse}
use lecoo_control_center.Hw.Fan.{apply_fan_mode}
use lecoo_control_center.Hw.Charge.{read_charge_limit, read_battery_rsoc, apply_charge_limit}
use lecoo_control_center.Hw.Getters.{read_system_info, read_fans_rpm, read_temperatures}
use lecoo_control_center.Hw.Keyboard.{read_keyboard_backlight, apply_keyboard_backlight}
use lecoo_control_center.Hw.Power.{read_power_profile, apply_power_profile}
use lecoo_control_center.Hw.Led.{apply_led_mode}
use lecoo_control_center.Handlers.Settings.{
  fresh_settings, save, restore_state, get_state, put_state,
}

-- `CARGO_PKG_VERSION`
abbrev pub version : Text
version = codes "0.4.0"

-- The fan's field of the settings.
abbrev pub with_fan_mode : FanIndex → FanMode → CurrentSettings → CurrentSettings
with_fan_mode cpu mode st = record st { fan_mode_cpu = mode }
with_fan_mode gpu mode st = record st { fan_mode_gpu = mode }

-- The match on the result at the end of `do_work`.
abbrev pub response_of : {S : Type 0} → Outcome IpcResponse → Action S IpcResponse
response_of (ok answer) = pure answer
response_of (err e) = pure (IpcResponse.error (codes "Processing request failed: " ++ e))
response_of panicked = panic

module _ {W : Type 0} (h : Host W) where
  -- `telemetry::enable` and `telemetry::disable`
  abbrev pub store_telemetry : Bool → Action (Daemon W) (Unit {0})
  store_telemetry b =
      modify (λ s. record s { statics = record (s.statics) { telemetry_enabled = b } })

  abbrev pub switch_telemetry : Bool → Action (Daemon W) IpcResponse
  switch_telemetry true = do store_telemetry true; pure IpcResponse.success
  switch_telemetry false = do store_telemetry false; pure IpcResponse.telemetry_disabled_info

  unfoldable pub get_charge_limit : EcDevice → Action (Daemon W) IpcResponse
  get_charge_limit ec = do
    limits ← read_charge_limit h ec
    current ← read_battery_rsoc h ec
    pure (IpcResponse.charge_limit limits.0 limits.1 current)

  unfoldable pub get_power_profile : EcDevice → Action (Daemon W) IpcResponse
  get_power_profile ec = do
    profile ← read_power_profile h ec
    pure (IpcResponse.power_limit profile)

  unfoldable pub get_keyboard_backlight : EcDevice → Action (Daemon W) IpcResponse
  get_keyboard_backlight ec = do
    level ← read_keyboard_backlight h ec
    pure (IpcResponse.keyboard_backlight level)

  unfoldable pub get_system_state : EcDevice → Action (Daemon W) IpcResponse
  get_system_state ec = do
    info ← read_system_info h ec
    let chip_name = codes "IT" ++ (hex_byte info.0 ++ hex_byte info.1)
    let revision = hex_byte info.2
    pure (IpcResponse.system_info chip_name revision ec.hram_offset version)

  unfoldable pub get_fans_rpm : EcDevice → Action (Daemon W) IpcResponse
  get_fans_rpm ec = do rpm ← read_fans_rpm h ec; pure (IpcResponse.fan_rpm rpm.0 rpm.1)

  unfoldable pub get_temperatures : EcDevice → Action (Daemon W) IpcResponse
  get_temperatures ec = do temps ← read_temperatures h ec; pure (IpcResponse.temp temps.0 temps.1)

  unfoldable pub set_charge_limit : EcDevice → ChargeLimit → Action (Daemon W) IpcResponse
  set_charge_limit ec profile = do
    apply_charge_limit h ec profile
    state ← get_state
    put_state (record state { charge_limit = profile })
    pure IpcResponse.success

  unfoldable pub set_keyboard_backlight :
      EcDevice → KeyboardBacklightLevel → Action (Daemon W) IpcResponse
  set_keyboard_backlight ec level = do
    apply_keyboard_backlight h ec level
    state ← get_state
    put_state (record state { keyboard_backlight = level })
    pure IpcResponse.success

  unfoldable pub set_fan_mode : EcDevice → FanIndex → FanMode → Action (Daemon W) IpcResponse
  set_fan_mode ec fan mode = do
    apply_fan_mode h ec fan mode
    state ← get_state
    put_state (with_fan_mode fan mode state)
    pure IpcResponse.success

  unfoldable pub set_power_profile : EcDevice → PowerProfile → Action (Daemon W) IpcResponse
  set_power_profile ec profile = do
    done ← apply_power_profile h ec profile
    state ← get_state
    put_state (record state { power_profile = profile })
    pure IpcResponse.success

  unfoldable pub set_led_mode : EcDevice → PowerLedMode → Action (Daemon W) IpcResponse
  set_led_mode ec mode = do
    apply_led_mode h ec mode
    state ← get_state
    put_state (record state { led_mode = mode })
    pure IpcResponse.success

  unfoldable pub process_daemon_command : EcDevice → DaemonCommand → Action (Daemon W) IpcResponse
  process_daemon_command ec DaemonCommand.restore_defaults = do
    held ← get_state
    state ← fresh_settings h
    put_state state
    save h state
    restore_state h ec state
    pure IpcResponse.success
  process_daemon_command ec (DaemonCommand.activate_telemetry is_enabled) = do
    held ← get_state
    let state = record held { telemetry_enabled = is_enabled }
    put_state state
    save h state
    switch_telemetry is_enabled
  process_daemon_command ec DaemonCommand.apply_settings = do
    state ← get_state
    restore_state h ec state
    pure IpcResponse.success
  process_daemon_command ec DaemonCommand.get_settings = do
    state ← get_state
    pure (IpcResponse.daemon_response (DaemonResponse.settings state))
  process_daemon_command ec DaemonCommand.get_telemetry_id = do
    state ← get_state
    pure (IpcResponse.daemon_response (DaemonResponse.telemetry_id state.telemetry_client_id))
  -- `_ => todo!()`
  process_daemon_command ec (DaemonCommand.activate_process_suspend b) = panic
  process_daemon_command ec DaemonCommand.run_prepare_shutdown = panic
  process_daemon_command ec DaemonCommand.run_prepare_suspend = panic
  process_daemon_command ec DaemonCommand.run_prepare_resume = panic

  -- The match of `do_work` on the request.
  unfoldable pub handle : EcDevice → IpcRequest → Action (Daemon W) IpcResponse
  handle ec IpcRequest.get_system_state = get_system_state ec
  handle ec IpcRequest.get_fans_rpm = get_fans_rpm ec
  handle ec IpcRequest.get_temperatures = get_temperatures ec
  handle ec IpcRequest.get_charge_limit = get_charge_limit ec
  handle ec IpcRequest.get_power_profile = get_power_profile ec
  handle ec IpcRequest.get_keyboard_backlight = get_keyboard_backlight ec
  handle ec (IpcRequest.set_power_profile profile) = set_power_profile ec profile
  handle ec (IpcRequest.set_fan_mode fan mode) = set_fan_mode ec fan mode
  handle ec (IpcRequest.set_keyboard_backlight level) = set_keyboard_backlight ec level
  handle ec (IpcRequest.set_charge_limit limit) = set_charge_limit ec limit
  handle ec (IpcRequest.set_led_mode mode) = set_led_mode ec mode
  handle ec (IpcRequest.daemon_command command) = process_daemon_command ec command

  unfoldable pub do_work : EcDevice → IpcRequest → Action (Daemon W) IpcResponse
  do_work ec req = do result ← attempt (handle ec req); response_of result
