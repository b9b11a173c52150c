-- ===== src/Handlers/Safe.antt =====
-- The stored fan modes stay ones that the hardware layer accepts.
use lecoo_control_center.Base.{
  ℕ, ◌<◌, ◌≡◌, refl, sym, subst, Option, none, some, inl, inr, Bool-cases, ltb, arith,
}
use lecoo_control_center.State.{Daemon}
use lecoo_control_center.Ec.Host.{Host}
use lecoo_control_center.Ec.Device.{EcDevice}
use lecoo_control_center.Ipc.Settings.{CurrentSettings, FanIndex, FanMode, cpu, gpu}
use lecoo_control_center.Ipc.Message.{DaemonCommand, IpcRequest}
use lecoo_control_center.Hw.Fan.Limit.{IsSafeMode, apply_fan_mode_refuses}
use lecoo_control_center.Handlers.Requests.{set_fan_mode, with_fan_mode, handle, do_work}
use lecoo_control_center.Handlers.Stored.{Moved, intended}
use lecoo_control_center.Handlers.Moves.{do_work_moves}

-- Both fan modes are accepted ones; nothing is asked of settings that are not there.
abbrev pub IsSafe : Option CurrentSettings → Type 0
IsSafe none = Unit
IsSafe (some st) = IsSafeMode st.fan_mode_cpu × IsSafeMode st.fan_mode_gpu

Moved-IsSafe :
    (f : CurrentSettings → CurrentSettings) (before after : Option CurrentSettings)
    → ((st : CurrentSettings) → IsSafe (some st) → IsSafe (some (f st)))
    → Moved f before after
    → IsSafe before
    → IsSafe after
Moved-IsSafe f before after keeps (inl e) safe = subst IsSafe (sym e) safe
Moved-IsSafe f before after keeps (inr (st, was, now)) safe =
    subst IsSafe (sym now) (keeps st (subst IsSafe was safe))

with_fan_IsSafe :
    (fan : FanIndex) (mode : FanMode) (st : CurrentSettings)
    → IsSafeMode mode
    → IsSafe (some st)
    → IsSafe (some (with_fan_mode fan mode st))
with_fan_IsSafe cpu mode st p safe = (p, safe.1)
with_fan_IsSafe gpu mode st p safe = (safe.0, p)

command_IsSafe :
    (c : DaemonCommand) (id : ℕ) (st : CurrentSettings)
    → IsSafe (some st)
    → IsSafe (some (intended (IpcRequest.daemon_command c) id st))
command_IsSafe DaemonCommand.restore_defaults id st safe = (tt, tt)
command_IsSafe DaemonCommand.get_settings id st safe = safe
command_IsSafe DaemonCommand.apply_settings id st safe = safe
command_IsSafe DaemonCommand.get_telemetry_id id st safe = safe
command_IsSafe (DaemonCommand.activate_telemetry b) id st safe = safe
command_IsSafe (DaemonCommand.activate_process_suspend b) id st safe = safe
command_IsSafe DaemonCommand.run_prepare_shutdown id st safe = safe
command_IsSafe DaemonCommand.run_prepare_suspend id st safe = safe
command_IsSafe DaemonCommand.run_prepare_resume id st safe = safe

module _ {W : Type 0} (h : Host W) (ec : EcDevice) where
  abbrev After : IpcRequest → Daemon W → Type 0
  After req s = IsSafe (do_work h ec req s).1.statics.settings

  refused :
      (fan : FanIndex) (d : ℕ) (s : Daemon W)
      → 220 < d
      → (do_work h ec (IpcRequest.set_fan_mode fan (FanMode.custom d)) s).1 ≡ s
  unfolding do_work handle set_fan_mode
  refused fan d s p = rw (apply_fan_mode_refuses h ec fan d s p) refl

  kept :
      (req : IpcRequest) (s : Daemon W)
      → ((id : ℕ) (st : CurrentSettings) → IsSafe (some st) → IsSafe (some (intended req id st)))
      → IsSafe s.statics.settings
      → After req s
  kept req s keeps = Moved-IsSafe _ _ _ (keeps (h.hash_now s.world).0) (do_work_moves h ec req s)

  -- On any host and for every request, whether it is answered, refused or panics: if both stored
  -- fan modes are accepted ones (a custom duty cycle of at most 220), so are those stored afterwards.
  pub do_work_keeps_IsSafe :
      (req : IpcRequest) (s : Daemon W)
      → IsSafe s.statics.settings
      → IsSafe (do_work h ec req s).1.statics.settings
  do_work_keeps_IsSafe (IpcRequest.set_fan_mode fan FanMode.auto) s =
      kept (IpcRequest.set_fan_mode fan FanMode.auto) s
        (λ id st. with_fan_IsSafe fan FanMode.auto st tt)
  do_work_keeps_IsSafe (IpcRequest.set_fan_mode fan FanMode.full) s =
      kept (IpcRequest.set_fan_mode fan FanMode.full) s
        (λ id st. with_fan_IsSafe fan FanMode.full st tt)
  do_work_keeps_IsSafe (IpcRequest.set_fan_mode fan (FanMode.custom d)) s =
      elim (Bool-cases (ltb 220 d)) [
        | inl over ↦ λ safe.
            subst (λ t. IsSafe t.statics.settings) (sym (refused fan d s (ground arith))) safe
        | inr fits ↦
            kept (IpcRequest.set_fan_mode fan (FanMode.custom d)) s
              (λ id st. with_fan_IsSafe fan (FanMode.custom d) st (ground arith))
      ]
  do_work_keeps_IsSafe IpcRequest.get_system_state s =
      kept IpcRequest.get_system_state s (λ id st safe. safe)
  do_work_keeps_IsSafe IpcRequest.get_fans_rpm s =
      kept IpcRequest.get_fans_rpm s (λ id st safe. safe)
  do_work_keeps_IsSafe IpcRequest.get_temperatures s =
      kept IpcRequest.get_temperatures s (λ id st safe. safe)
  do_work_keeps_IsSafe IpcRequest.get_charge_limit s =
      kept IpcRequest.get_charge_limit s (λ id st safe. safe)
  do_work_keeps_IsSafe IpcRequest.get_power_profile s =
      kept IpcRequest.get_power_profile s (λ id st safe. safe)
  do_work_keeps_IsSafe IpcRequest.get_keyboard_backlight s =
      kept IpcRequest.get_keyboard_backlight s (λ id st safe. safe)
  do_work_keeps_IsSafe (IpcRequest.set_power_profile p) s =
      kept (IpcRequest.set_power_profile p) s (λ id st safe. safe)
  do_work_keeps_IsSafe (IpcRequest.set_keyboard_backlight l) s =
      kept (IpcRequest.set_keyboard_backlight l) s (λ id st safe. safe)
  do_work_keeps_IsSafe (IpcRequest.set_charge_limit l) s =
      kept (IpcRequest.set_charge_limit l) s (λ id st safe. safe)
  do_work_keeps_IsSafe (IpcRequest.set_led_mode m) s =
      kept (IpcRequest.set_led_mode m) s (λ id st safe. safe)
  do_work_keeps_IsSafe (IpcRequest.daemon_command c) s =
      kept (IpcRequest.daemon_command c) s (command_IsSafe c)
