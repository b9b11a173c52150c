-- ===== src/Gui/Commands.antt =====
-- The commands that the window calls (gui/src/tauri_cmds.rs) and the window's events
-- (gui/src/lib.rs, gui/src/tray.rs), on the application's state.
use lecoo_control_center.Base.{ℕ, ◌*◌, Bool, true, false, Option, some, ltb, if◌then◌else◌, ◌++◌}
use lecoo_control_center.Base.Text.{codes}
use lecoo_control_center.Base.Action.{Action, pure, fail, ◌>>=◌}
use lecoo_control_center.Ipc.Message.{DaemonCommand, IpcRequest, IpcResponse}
use lecoo_control_center.Ipc.Settings.{PowerProfile, FanIndex, FanMode}
use lecoo_control_center.Gui.State.{AppState, Telemetry, ConnectionStatus}
use lecoo_control_center.Gui.Arguments.{
  PowerProfileArg, FanArg, FanModeArg, ChargeLimitArg, KeyboardBacklightArg, PowerLedModeArg,
  profile_from, fan_from, fan_mode_from, charge_limit_from, backlight_from, led_mode_from,
}
use lecoo_control_center.Gui.Desktop.{World, Gui, gui_connect, gui_request, change}
pub mod Applies
pub mod Interval

abbrev pub get_telemetry : AppState → Option Telemetry
get_telemetry state = state.last_telemetry

abbrev pub get_connection_status : AppState → ConnectionStatus
get_connection_status state = state.connection

-- `notify_one` with no waiter: the permit is kept.
abbrev pub notify_one : AppState → AppState
notify_one state = record state { reconnect_signal = true }

abbrev pub reconnect_now : AppState → AppState
reconnect_now = notify_one

unfoldable pub set_poll_paused : Bool → AppState → AppState
set_poll_paused paused state =
    let stored = record state { poll_paused = paused } in
    if paused then stored else notify_one stored

-- `clamp(500, 60_000)`
abbrev pub clamp_interval : ℕ → ℕ
clamp_interval ms = if ltb ms 500 then 500 else if ltb 60000 ms then 60000 else ms

unfoldable pub set_poll_interval : ℕ → AppState → AppState
set_poll_interval seconds state =
    notify_one (record state { poll_interval_ms = clamp_interval (seconds * 1000) })

-- The window is closed to the tray, and brought back from it.
abbrev pub on_close_requested : AppState → AppState
on_close_requested state = record state { poll_paused = true }

abbrev pub bring_window_to_front : AppState → AppState
bring_window_to_front state = notify_one (record state { poll_paused = false })

module _ {S : Type 0} (d : World S) where
  -- The match on the response; an `Err` of the source is a failure with its text.
  abbrev pub accepted : IpcResponse → Action (Gui S) (Unit {0})
  accepted IpcResponse.success = pure tt
  accepted (IpcResponse.error msg) = fail msg
  accepted other = fail (codes "unexpected response: " ++ d.debug other)

  unfoldable pub send_one : IpcRequest → Action (Gui S) (Unit {0})
  send_one req = do version ← gui_connect d; resp ← gui_request d req; accepted resp

  unfoldable pub apply_power_profile : PowerProfile → Action (Gui S) (Unit {0})
  apply_power_profile profile = send_one (IpcRequest.set_power_profile profile)

  unfoldable pub apply_fan_mode : FanIndex → FanMode → Action (Gui S) (Unit {0})
  apply_fan_mode fan mode = send_one (IpcRequest.set_fan_mode fan mode)

  abbrev pub set_power_profile : PowerProfileArg → Action (Gui S) (Unit {0})
  set_power_profile profile = send_one (IpcRequest.set_power_profile (profile_from profile))

  abbrev pub set_fan_mode : FanArg → FanModeArg → Action (Gui S) (Unit {0})
  set_fan_mode fan mode = send_one (IpcRequest.set_fan_mode (fan_from fan) (fan_mode_from mode))

  abbrev pub set_charge_limit : ChargeLimitArg → Action (Gui S) (Unit {0})
  set_charge_limit limit = send_one (IpcRequest.set_charge_limit (charge_limit_from limit))

  abbrev pub set_keyboard_backlight : KeyboardBacklightArg → Action (Gui S) (Unit {0})
  set_keyboard_backlight level = send_one (IpcRequest.set_keyboard_backlight (backlight_from level))

  abbrev pub set_led_mode : PowerLedModeArg → Action (Gui S) (Unit {0})
  set_led_mode mode = send_one (IpcRequest.set_led_mode (led_mode_from mode))

  abbrev pub restore_defaults : Action (Gui S) (Unit {0})
  restore_defaults = send_one (IpcRequest.daemon_command DaemonCommand.restore_defaults)
