-- ===== src/Handlers/Telemetry.antt =====
-- The telemetry switch at run time (`TELEMETRY_ENABLED`, daemon/src/telemetry/mod.rs) and the switch
-- in the stored settings.
use lecoo_control_center.Base.{
  ◌≡◌, refl, ◌∙◌, Bool, true, false, ◌⊎◌, Option, none, some, inl, inr, arith,
}
use lecoo_control_center.Base.Action.{Action, Outcome, ok, err, panicked, proceed, reify, ◌>>=◌}
use lecoo_control_center.State.{Daemon, Statics}
use lecoo_control_center.Ec.Host.{Host}
use lecoo_control_center.Ec.Device.{EcDevice}
use lecoo_control_center.Ec.Frame.{Keeps, frame}
use lecoo_control_center.Ipc.Settings.{CurrentSettings, PowerLedMode, default_settings}
use lecoo_control_center.Ipc.Message.{DaemonCommand, IpcRequest, IpcResponse}
use lecoo_control_center.Hw.Led.{apply_led_mode}
use lecoo_control_center.Hw.Frame.{hw_frame}
use lecoo_control_center.Handlers.Frame.{
  get_state-Keeps, fresh_settings-Keeps, save-Keeps, led_mode-Keeps, restoring-Keeps,
}
use lecoo_control_center.Handlers.Moves.{restore_defaults_stores}
use lecoo_control_center.Handlers.Settings.{restore_state, put_state}
use lecoo_control_center.Handlers.Requests.{
  response_of, switch_telemetry, get_charge_limit, get_power_profile, get_keyboard_backlight,
  get_system_state, get_fans_rpm, get_temperatures, set_charge_limit, set_keyboard_backlight,
  set_fan_mode, set_power_profile, set_led_mode, process_daemon_command, handle, do_work,
}

abbrev pub flag : Statics → Bool
flag t = t.telemetry_enabled

-- The run-time switch that a request asks for.
abbrev pub asked_flag : IpcRequest → Option Bool
asked_flag (IpcRequest.daemon_command (DaemonCommand.activate_telemetry b)) = some b
asked_flag _ = none

module _ {W : Type 0} (h : Host W) (ec : EcDevice) where
  skips : (b : Bool) (t : Statics) → flag (record t { is_led_already_custom = b }) ≡ flag t
  skips b t = refl

  pub put_state-Keeps : (st : CurrentSettings) → Keeps flag (put_state {W = W} st)
  unfolding put_state
  put_state-Keeps st = record { same = λ s. refl }

  pub led-Keeps : (mode : PowerLedMode) → Keeps flag (apply_led_mode h ec mode)
  led-Keeps = led_mode-Keeps flag h skips ec

  pub restore_state-Keeps : (st : CurrentSettings) → Keeps flag (restore_state h ec st)
  restore_state-Keeps = restoring-Keeps flag h skips ec

  -- What a switching call leaves the flag at, however it ends.
  abbrev Switched : Option Bool → Action (Daemon W) IpcResponse → Type 0
  Switched o m =
      (s : Daemon W) → (flag (m s).1.statics ≡ flag s.statics) ⊎ (o ≡ some (flag (m s).1.statics))

  bind-Switched :
      {A : Type 0} (o : Option Bool) (m : Action (Daemon W) A)
      (f : A → Action (Daemon W) IpcResponse)
      → Keeps flag m
      → ((a : A) → Switched o (f a))
      → Switched o (m >>= f)
  bind-Switched {A = A} o m f k l s = split (m s).0
    where
      join : {x y z : Bool} → x ≡ y → (z ≡ x) ⊎ (o ≡ some z) → (z ≡ y) ⊎ (o ≡ some z)
      join e (inl d) = inl (d ∙ e)
      join e (inr d) = inr d

      split :
          (r : Outcome A)
          → (flag (proceed r f (m s).1).1.statics ≡ flag s.statics)
            ⊎ (o ≡ some (flag (proceed r f (m s).1).1.statics))
      split (ok a) = join (k.same s) (l a (m s).1)
      split (err e) = inl (k.same s)
      split panicked = inl (k.same s)

  switch-Switched : (b : Bool) → Switched (some b) (switch_telemetry h b)
  switch-Switched true s = inr refl
  switch-Switched false s = inr refl

  still : {o : Option Bool} (m : Action (Daemon W) IpcResponse) → Keeps flag m → Switched o m
  still m k s = inl (k.same s)

  command-Switched :
      (c : DaemonCommand)
      → Switched (asked_flag (IpcRequest.daemon_command c)) (process_daemon_command h ec c)
  unfolding process_daemon_command
  command-Switched DaemonCommand.restore_defaults =
      still (process_daemon_command h ec DaemonCommand.restore_defaults) (
        search
          (
            frame, get_state-Keeps, fresh_settings-Keeps, put_state-Keeps, save-Keeps,
            restore_state-Keeps,
          )
          depth 12)
  command-Switched (DaemonCommand.activate_telemetry b) = bind-Switched _ _ _ get_state-Keeps (λ st.
      bind-Switched _ _ _ (put_state-Keeps _)
        (λ _. bind-Switched _ _ _ (save-Keeps h _) (λ _. switch-Switched b)))
  command-Switched DaemonCommand.apply_settings =
      still (process_daemon_command h ec DaemonCommand.apply_settings)
        (search (frame, get_state-Keeps, restore_state-Keeps))
  command-Switched DaemonCommand.get_settings =
      still (process_daemon_command h ec DaemonCommand.get_settings)
        (search (frame, get_state-Keeps))
  command-Switched DaemonCommand.get_telemetry_id =
      still (process_daemon_command h ec DaemonCommand.get_telemetry_id)
        (search (frame, get_state-Keeps))
  command-Switched (DaemonCommand.activate_process_suspend b) =
      still (process_daemon_command h ec (DaemonCommand.activate_process_suspend b)) (search frame)
  command-Switched DaemonCommand.run_prepare_shutdown =
      still (process_daemon_command h ec DaemonCommand.run_prepare_shutdown) (search frame)
  command-Switched DaemonCommand.run_prepare_suspend =
      still (process_daemon_command h ec DaemonCommand.run_prepare_suspend) (search frame)
  command-Switched DaemonCommand.run_prepare_resume =
      still (process_daemon_command h ec DaemonCommand.run_prepare_resume) (search frame)

  handle-Switched : (req : IpcRequest) → Switched (asked_flag req) (handle h ec req)
  unfolding handle get_system_state get_fans_rpm get_temperatures get_charge_limit get_power_profile
      get_keyboard_backlight set_power_profile set_fan_mode set_keyboard_backlight set_charge_limit
      set_led_mode
  handle-Switched IpcRequest.get_system_state =
      still (get_system_state h ec) (search (frame, hw_frame))
  handle-Switched IpcRequest.get_fans_rpm = still (get_fans_rpm h ec) (search (frame, hw_frame))
  handle-Switched IpcRequest.get_temperatures =
      still (get_temperatures h ec) (search (frame, hw_frame))
  handle-Switched IpcRequest.get_charge_limit =
      still (get_charge_limit h ec) (search (frame, hw_frame))
  handle-Switched IpcRequest.get_power_profile =
      still (get_power_profile h ec) (search (frame, hw_frame))
  handle-Switched IpcRequest.get_keyboard_backlight =
      still (get_keyboard_backlight h ec) (search (frame, hw_frame))
  handle-Switched (IpcRequest.set_power_profile profile) =
      still (set_power_profile h ec profile)
        (search (frame, hw_frame, get_state-Keeps, put_state-Keeps) depth 8)
  handle-Switched (IpcRequest.set_fan_mode fan mode) =
      still (set_fan_mode h ec fan mode)
        (search (frame, hw_frame, get_state-Keeps, put_state-Keeps) depth 8)
  handle-Switched (IpcRequest.set_keyboard_backlight level) =
      still (set_keyboard_backlight h ec level)
        (search (frame, hw_frame, get_state-Keeps, put_state-Keeps) depth 8)
  handle-Switched (IpcRequest.set_charge_limit limit) =
      still (set_charge_limit h ec limit)
        (search (frame, hw_frame, get_state-Keeps, put_state-Keeps) depth 8)
  handle-Switched (IpcRequest.set_led_mode mode) =
      still (set_led_mode h ec mode)
        (search (frame, hw_frame, get_state-Keeps, put_state-Keeps, led-Keeps) depth 8)
  handle-Switched (IpcRequest.daemon_command c) = command-Switched c

  answered :
      (o : Outcome IpcResponse) (t : Daemon W)
      → flag (proceed (reify o) response_of t).1.statics ≡ flag t.statics
  answered (ok a) t = refl
  answered (err e) t = refl
  answered panicked t = refl

  -- On any host and however the request ends, the run-time telemetry switch is as it was, or the
  -- request is `ActivateTelemetry` and the switch is what it asks for.
  pub do_work_switches_telemetry :
      (req : IpcRequest) (s : Daemon W)
      → (flag (do_work h ec req s).1.statics ≡ flag s.statics)
        ⊎ (asked_flag req ≡ some (flag (do_work h ec req s).1.statics))
  unfolding do_work
  do_work_switches_telemetry req s =
      rw (answered (handle h ec req s).0 (handle h ec req s).1) (handle-Switched req s)

  -- With the settings initialised and unlocked and telemetry switched off at run time,
  -- `RestoreDefaults` stores settings that say it is on and leaves it off.
  pub restore_defaults_leaves_telemetry_off :
      (s : Daemon W) (st : CurrentSettings)
      → s.statics.settings ≡ some st
      → s.statics.state_locked ≡ false
      → flag s.statics ≡ false
      → (do_work h ec
            (IpcRequest.daemon_command DaemonCommand.restore_defaults)
            s).1.statics.settings
          ≡ some (default_settings (h.hash_now s.world).0)
        × ((default_settings (h.hash_now s.world).0).telemetry_enabled ≡ true)
        × (flag
              (do_work h ec (IpcRequest.daemon_command DaemonCommand.restore_defaults) s).1.statics
            ≡ false)
  restore_defaults_leaves_telemetry_off s st e f off = (
    restore_defaults_stores h ec s st e f,
    refl,
    unasked
          (do_work_switches_telemetry (IpcRequest.daemon_command DaemonCommand.restore_defaults) s)
        ∙ off,
  )
    where
      unasked : {b c : Bool} → (b ≡ c) ⊎ (none ≡ some b) → b ≡ c
      unasked (inl same) = same
      unasked (inr e) = ground arith
