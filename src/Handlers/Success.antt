-- ===== src/Handlers/Success.antt =====
-- A request answered with success has moved the stored settings, on any host.
use lecoo_control_center.Base.{◌≡◌, refl, Bool, true, false, Option, none, some, arith}
use lecoo_control_center.Base.Action.{proceed, ◌>>=◌, ◌>>◌}
use lecoo_control_center.State.{Daemon}
use lecoo_control_center.Ec.Host.{Host}
use lecoo_control_center.Ec.Device.{EcDevice}
use lecoo_control_center.Ec.Frame.{frame}
use lecoo_control_center.Ipc.Settings.{CurrentSettings, default_settings}
use lecoo_control_center.Ipc.Message.{DaemonCommand, IpcRequest}
use lecoo_control_center.Hw.Fan.{apply_fan_mode}
use lecoo_control_center.Hw.Charge.{apply_charge_limit}
use lecoo_control_center.Hw.Keyboard.{apply_keyboard_backlight}
use lecoo_control_center.Hw.Power.{apply_power_profile}
use lecoo_control_center.Hw.Led.{apply_led_mode}
use lecoo_control_center.Hw.Frame.{hw_frame}
use lecoo_control_center.Handlers.Settings.{fresh_settings, get_state, put_state, initialised}
use lecoo_control_center.Handlers.Requests.{
  get_charge_limit, get_power_profile, get_keyboard_backlight, get_system_state, get_fans_rpm,
  get_temperatures, set_charge_limit, set_keyboard_backlight, set_fan_mode, set_power_profile,
  set_led_mode, process_daemon_command, handle, do_work,
}
use lecoo_control_center.Handlers.Frame.{save-Keeps}
use lecoo_control_center.Handlers.Stored.{
  intended, led-Keeps, restore_state-Keeps, switch_telemetry-Keeps, after_reset, after_reset-Keeps,
}
use lecoo_control_center.Handlers.Answers.{
  succeeded, Applied, Done, bind-Quiet, pure-Quiet, quiet, guarded-Done, read-Done, setter-Done,
  answered,
}

module _ {W : Type 0} (h : Host W) (ec : EcDevice) where
  restore_defaults-Done :
      (s : Daemon W)
      → Done
          (λ _. default_settings (h.hash_now s.world).0)
          s.statics.settings
          (process_daemon_command h ec DaemonCommand.restore_defaults s)
  unfolding process_daemon_command get_state fresh_settings put_state
  restore_defaults-Done s = split s.statics.settings s.statics.state_locked refl
    where
      split :
          (o : Option CurrentSettings) (b : Bool)
          → s.statics.settings ≡ o
          → Done
              (λ _. default_settings (h.hash_now s.world).0)
              s.statics.settings
              (proceed
                (initialised o b s).0
                (λ _. fresh_settings h >>= λ st. put_state st >> after_reset h ec st)
                (initialised o b s).1)
      split none b e = λ x. ground arith
      split (some st) true e = λ x. ground arith
      split (some st) false e = λ x. (st, e, (after_reset-Keeps h ec _).same _)

  command-Done :
      (c : DaemonCommand) (s : Daemon W)
      → Done
          (intended (IpcRequest.daemon_command c) (h.hash_now s.world).0)
          s.statics.settings
          (process_daemon_command h ec c s)
  unfolding process_daemon_command
  command-Done DaemonCommand.restore_defaults s = restore_defaults-Done s
  command-Done (DaemonCommand.activate_telemetry b) s =
      guarded-Done (intended (IpcRequest.daemon_command (DaemonCommand.activate_telemetry b)) 0) _ s
        (λ st. search (frame, save-Keeps, switch_telemetry-Keeps))
  command-Done DaemonCommand.apply_settings s =
      read-Done _ s (λ st. search (frame, restore_state-Keeps))
  command-Done DaemonCommand.get_settings s = read-Done _ s (λ st. search frame)
  command-Done DaemonCommand.get_telemetry_id s = read-Done _ s (λ st. search frame)
  command-Done (DaemonCommand.activate_process_suspend b) s = λ x. ground arith
  command-Done DaemonCommand.run_prepare_shutdown s = λ x. ground arith
  command-Done DaemonCommand.run_prepare_suspend s = λ x. ground arith
  command-Done DaemonCommand.run_prepare_resume s = λ x. ground arith

  handle-Done :
      (req : IpcRequest) (s : Daemon W)
      → Done (intended req (h.hash_now s.world).0) s.statics.settings (handle h ec req s)
  unfolding handle get_system_state get_fans_rpm get_temperatures get_charge_limit get_power_profile
      get_keyboard_backlight set_power_profile set_fan_mode set_keyboard_backlight set_charge_limit
      set_led_mode
  handle-Done IpcRequest.get_system_state s =
      quiet _ (get_system_state h ec) s (search (bind-Quiet, pure-Quiet))
  handle-Done IpcRequest.get_fans_rpm s =
      quiet _ (get_fans_rpm h ec) s (search (bind-Quiet, pure-Quiet))
  handle-Done IpcRequest.get_temperatures s =
      quiet _ (get_temperatures h ec) s (search (bind-Quiet, pure-Quiet))
  handle-Done IpcRequest.get_power_profile s =
      quiet _ (get_power_profile h ec) s (search (bind-Quiet, pure-Quiet))
  handle-Done IpcRequest.get_keyboard_backlight s =
      quiet _ (get_keyboard_backlight h ec) s (search (bind-Quiet, pure-Quiet))
  handle-Done IpcRequest.get_charge_limit s =
      quiet _ (get_charge_limit h ec) s (search (bind-Quiet, pure-Quiet))
  handle-Done (IpcRequest.set_power_profile profile) s =
      setter-Done (intended (IpcRequest.set_power_profile profile) 0)
        (apply_power_profile h ec profile) s (search hw_frame)
  handle-Done (IpcRequest.set_fan_mode fan mode) s =
      setter-Done (intended (IpcRequest.set_fan_mode fan mode) 0) (apply_fan_mode h ec fan mode) s
        (search hw_frame)
  handle-Done (IpcRequest.set_keyboard_backlight level) s =
      setter-Done (intended (IpcRequest.set_keyboard_backlight level) 0)
        (apply_keyboard_backlight h ec level) s (search hw_frame)
  handle-Done (IpcRequest.set_charge_limit limit) s =
      setter-Done (intended (IpcRequest.set_charge_limit limit) 0) (apply_charge_limit h ec limit) s
        (search hw_frame)
  handle-Done (IpcRequest.set_led_mode mode) s =
      setter-Done (intended (IpcRequest.set_led_mode mode) 0) (apply_led_mode h ec mode) s
        (led-Keeps h ec mode)
  handle-Done (IpcRequest.daemon_command c) s = command-Done c s

  -- On any host, a request that is answered with success found settings in place and has stored what
  -- it asks for; new settings have the hashed client id.
  pub do_work_success_applies :
      (req : IpcRequest) (s : Daemon W)
      → succeeded (do_work h ec req s).0 ≡ true
      → Applied
          (intended req (h.hash_now s.world).0)
          s.statics.settings
          (do_work h ec req s).1.statics.settings
  unfolding do_work
  do_work_success_applies req s =
      answered (handle h ec req s).0 (handle h ec req s).1 (intended req (h.hash_now s.world).0)
        s.statics.settings (handle-Done req s)
