-- ===== src/Handlers/Moves.antt =====
-- How a request moves the stored settings, on any host and however it ends.
use lecoo_control_center.Base.{
  ℕ, ◌≡◌, refl, sym, ◌∙◌, subst, Bool, true, false, Option, none, some, inl, inr,
}
use lecoo_control_center.Base.Action.{
  Action, Outcome, ok, err, panicked, proceed, reify, ◌>>=◌, ◌>>◌,
}
use lecoo_control_center.State.{Daemon}
use lecoo_control_center.Ec.Host.{Host}
use lecoo_control_center.Ec.Device.{EcDevice}
use lecoo_control_center.Ec.Frame.{Keeps, frame}
use lecoo_control_center.Ipc.Settings.{CurrentSettings, default_settings}
use lecoo_control_center.Ipc.Message.{DaemonCommand, IpcRequest, IpcResponse}
use lecoo_control_center.Hw.Fan.{apply_fan_mode}
use lecoo_control_center.Hw.Charge.{apply_charge_limit}
use lecoo_control_center.Hw.Keyboard.{apply_keyboard_backlight}
use lecoo_control_center.Hw.Power.{apply_power_profile}
use lecoo_control_center.Hw.Led.{apply_led_mode}
use lecoo_control_center.Hw.Frame.{hw_frame}
use lecoo_control_center.Handlers.Settings.{fresh_settings, get_state, put_state, initialised}
use lecoo_control_center.Handlers.Requests.{
  response_of, get_charge_limit, get_power_profile, get_keyboard_backlight, get_system_state,
  get_fans_rpm, get_temperatures, set_charge_limit, set_keyboard_backlight, set_fan_mode,
  set_power_profile, set_led_mode, process_daemon_command, handle, do_work,
}
use lecoo_control_center.Handlers.Frame.{get_state-Keeps, save-Keeps}
use lecoo_control_center.Handlers.Stored.{
  stored, intended, Moved, guarded-Moved, setter-Moved, led-Keeps, switch_telemetry-Keeps,
  restore_state-Keeps, after_reset, after_reset-Keeps,
}

module _ {W : Type 0} (h : Host W) (ec : EcDevice) where
  -- `RestoreDefaults`: new settings, saved and applied.
  restore_defaults-Moved :
      (s : Daemon W)
      → Moved
          (λ _. default_settings (h.hash_now s.world).0)
          s.statics.settings
          (process_daemon_command h ec DaemonCommand.restore_defaults s).1.statics.settings
  unfolding process_daemon_command get_state fresh_settings put_state
  restore_defaults-Moved s = split s.statics.settings s.statics.state_locked refl
    where
      id : ℕ
      id = (h.hash_now s.world).0

      split :
          (o : Option CurrentSettings) (b : Bool)
          → s.statics.settings ≡ o
          → Moved
              (λ _. default_settings id)
              s.statics.settings
              (proceed
                (initialised o b s).0
                (λ _. fresh_settings h >>= λ st. put_state st >> after_reset h ec st)
                (initialised o b s).1).1.statics.settings
      split none b e = inl refl
      split (some st) true e = inl refl
      split (some st) false e = inr (st, e, (after_reset-Keeps h ec _).same _)

  unmoved :
      (f : CurrentSettings → CurrentSettings) {A : Type 0} (m : Action (Daemon W) A) (s : Daemon W)
      → Keeps stored m
      → Moved f s.statics.settings (m s).1.statics.settings
  unmoved f m s k = inl (k.same s)

  command-Moved :
      (c : DaemonCommand) (s : Daemon W)
      → Moved
          (intended (IpcRequest.daemon_command c) (h.hash_now s.world).0)
          s.statics.settings
          (process_daemon_command h ec c s).1.statics.settings
  unfolding process_daemon_command
  command-Moved DaemonCommand.restore_defaults s = restore_defaults-Moved s
  command-Moved (DaemonCommand.activate_telemetry b) s =
      guarded-Moved (λ st. record st { telemetry_enabled = b }) _ s
        (λ st. search (frame, save-Keeps, switch_telemetry-Keeps))
  command-Moved DaemonCommand.apply_settings s =
      unmoved _ (process_daemon_command h ec DaemonCommand.apply_settings) s
        (search (frame, get_state-Keeps, restore_state-Keeps))
  command-Moved DaemonCommand.get_settings s =
      unmoved _ (process_daemon_command h ec DaemonCommand.get_settings) s
        (search (frame, get_state-Keeps))
  command-Moved DaemonCommand.get_telemetry_id s =
      unmoved _ (process_daemon_command h ec DaemonCommand.get_telemetry_id) s
        (search (frame, get_state-Keeps))
  command-Moved (DaemonCommand.activate_process_suspend b) s = inl refl
  command-Moved DaemonCommand.run_prepare_shutdown s = inl refl
  command-Moved DaemonCommand.run_prepare_suspend s = inl refl
  command-Moved DaemonCommand.run_prepare_resume s = inl refl

  handle-Moved :
      (req : IpcRequest) (s : Daemon W)
      → Moved
          (intended req (h.hash_now s.world).0)
          s.statics.settings
          (handle h ec req s).1.statics.settings
  unfolding handle get_system_state get_fans_rpm get_temperatures get_charge_limit get_power_profile
      get_keyboard_backlight set_power_profile set_fan_mode set_keyboard_backlight set_charge_limit
      set_led_mode
  handle-Moved IpcRequest.get_system_state s =
      unmoved _ (get_system_state h ec) s (search (frame, hw_frame))
  handle-Moved IpcRequest.get_fans_rpm s =
      unmoved _ (get_fans_rpm h ec) s (search (frame, hw_frame))
  handle-Moved IpcRequest.get_temperatures s =
      unmoved _ (get_temperatures h ec) s (search (frame, hw_frame))
  handle-Moved IpcRequest.get_charge_limit s =
      unmoved _ (get_charge_limit h ec) s (search (frame, hw_frame))
  handle-Moved IpcRequest.get_power_profile s =
      unmoved _ (get_power_profile h ec) s (search (frame, hw_frame))
  handle-Moved IpcRequest.get_keyboard_backlight s =
      unmoved _ (get_keyboard_backlight h ec) s (search (frame, hw_frame))
  handle-Moved (IpcRequest.set_power_profile profile) s =
      setter-Moved h ec (intended (IpcRequest.set_power_profile profile) 0)
        (apply_power_profile h ec profile) s (search hw_frame)
  handle-Moved (IpcRequest.set_fan_mode fan mode) s =
      setter-Moved h ec (intended (IpcRequest.set_fan_mode fan mode) 0)
        (apply_fan_mode h ec fan mode) s (search hw_frame)
  handle-Moved (IpcRequest.set_keyboard_backlight level) s =
      setter-Moved h ec (intended (IpcRequest.set_keyboard_backlight level) 0)
        (apply_keyboard_backlight h ec level) s (search hw_frame)
  handle-Moved (IpcRequest.set_charge_limit limit) s =
      setter-Moved h ec (intended (IpcRequest.set_charge_limit limit) 0)
        (apply_charge_limit h ec limit) s (search hw_frame)
  handle-Moved (IpcRequest.set_led_mode mode) s =
      setter-Moved h ec (intended (IpcRequest.set_led_mode mode) 0) (apply_led_mode h ec mode) s
        (led-Keeps h ec mode)
  handle-Moved (IpcRequest.daemon_command c) s = command-Moved c s

  response_of-Keeps : (o : Outcome IpcResponse) → Keeps stored (response_of {S = Daemon W} o)
  response_of-Keeps (ok a) = search frame
  response_of-Keeps (err e) = search frame
  response_of-Keeps panicked = search frame

  answered :
      (o : Outcome IpcResponse) (t : Daemon W)
      → (proceed (reify o) response_of t).1.statics.settings ≡ t.statics.settings
  answered (ok a) t = refl
  answered (err e) t = refl
  answered panicked t = refl

  -- On any host, and whether it answers, fails or panics, `do_work` leaves the stored settings as
  -- they were or applies to them what the request asks for; new settings have the hashed client id.
  pub do_work_moves :
      (req : IpcRequest) (s : Daemon W)
      → Moved
          (intended req (h.hash_now s.world).0)
          s.statics.settings
          (do_work h ec req s).1.statics.settings
  unfolding do_work
  do_work_moves req s =
      subst (Moved (intended req (h.hash_now s.world).0) s.statics.settings)
        (sym (answered (handle h ec req s).0 (handle h ec req s).1)) (handle-Moved req s)

  reset_stores :
      (s : Daemon W) (st : CurrentSettings)
      → s.statics.settings ≡ some st
      → s.statics.state_locked ≡ false
      → (process_daemon_command h ec DaemonCommand.restore_defaults s).1.statics.settings
        ≡ some (default_settings (h.hash_now s.world).0)
  unfolding process_daemon_command get_state fresh_settings put_state
  reset_stores s st e f =
      rw (e, f) ((after_reset-Keeps h ec (default_settings (h.hash_now s.world).0)).same _)

  -- On any host, with the settings initialised and unlocked, `RestoreDefaults` stores the default
  -- settings under a new client id, also when saving or applying them fails.
  pub restore_defaults_stores :
      (s : Daemon W) (st : CurrentSettings)
      → s.statics.settings ≡ some st
      → s.statics.state_locked ≡ false
      → (do_work h ec
          (IpcRequest.daemon_command DaemonCommand.restore_defaults)
          s).1.statics.settings
        ≡ some (default_settings (h.hash_now s.world).0)
  unfolding do_work handle
  restore_defaults_stores s st e f = answered _ _ ∙ reset_stores s st e f
