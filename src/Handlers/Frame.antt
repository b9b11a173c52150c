-- ===== src/Handlers/Frame.antt =====
-- What the calls on the settings leave alone on any host, however they end. `obs` is a part of the
-- statics; the LED flag, which restoring the settings may change, is not in it.
use lecoo_control_center.Base.{◌≡◌, refl, Bool, true, false, Option, none, some}
use lecoo_control_center.State.{Daemon, Statics}
use lecoo_control_center.Ec.Host.{Host}
use lecoo_control_center.Ec.Device.{EcDevice}
use lecoo_control_center.Ec.Frame.{Keeps, frame}
use lecoo_control_center.Ipc.Settings.{CurrentSettings, PowerLedMode}
use lecoo_control_center.Hw.Led.{apply_led_mode}
use lecoo_control_center.Hw.Frame.{hw_frame, apply_led_mode-Keeps}
use lecoo_control_center.Handlers.Settings.{
  fresh_settings, save, restore_state, get_state, initialised,
}

module _ {X : Type 0} {obs : Statics → X} {W : Type 0} where
  pub get_state-Keeps : Keeps obs (get_state {W = W})
  unfolding get_state
  get_state-Keeps = record { same = λ s. kept s.statics.settings s.statics.state_locked s }
    where
      kept :
          (o : Option CurrentSettings) (b : Bool) (s : Daemon W)
          → obs (initialised o b s).1.statics ≡ obs s.statics
      kept none b s = refl
      kept (some st) true s = refl
      kept (some st) false s = refl

module _ {X : Type 0} {obs : Statics → X} {W : Type 0} (h : Host W) where
  pub fresh_settings-Keeps : Keeps obs (fresh_settings h)
  unfolding fresh_settings
  fresh_settings-Keeps = record { same = λ s. refl }

  pub save-Keeps : (st : CurrentSettings) → Keeps obs (save h st)
  unfolding save
  save-Keeps st = search frame

-- The LED mode and the whole of the settings applied to the device.
module _ {X : Type 0} (obs : Statics → X) {W : Type 0} (h : Host W)
    (skips : (b : Bool) (t : Statics) → obs (record t { is_led_already_custom = b }) ≡ obs t)
    (ec : EcDevice) where
  pub led_mode-Keeps : (mode : PowerLedMode) → Keeps obs (apply_led_mode h ec mode)
  led_mode-Keeps = apply_led_mode-Keeps {obs = obs} h skips ec

  pub restoring-Keeps : (st : CurrentSettings) → Keeps obs (restore_state h ec st)
  unfolding restore_state
  restoring-Keeps st = search (frame, hw_frame, led_mode-Keeps) depth 12
