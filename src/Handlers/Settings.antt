-- ===== src/Handlers/Settings.antt =====
-- `DaemonState` for `CurrentSettings`: saving, loading and restoring the settings, and the lock on
-- them (daemon/src/handlers.rs).
use lecoo_control_center.Base.{Bool, true, false, Option, none, some}
use lecoo_control_center.Base.Text.{Text, codes}
use lecoo_control_center.Base.Action.{
  Action, Outcome, ok, err, panicked, pure, fail, panic, attempt, modify, ◌>>=◌, ◌>>◌,
}
use lecoo_control_center.State.{Daemon, on_world}
use lecoo_control_center.Ec.Host.{Host}
use lecoo_control_center.Ec.Device.{EcDevice}
use lecoo_control_center.Ipc.Settings.{CurrentSettings, default_settings, cpu, gpu}
use lecoo_control_center.Hw.Fan.{apply_fan_mode}
use lecoo_control_center.Hw.Charge.{apply_charge_limit}
use lecoo_control_center.Hw.Keyboard.{apply_keyboard_backlight}
use lecoo_control_center.Hw.Power.{apply_power_profile}
use lecoo_control_center.Hw.Led.{apply_led_mode}

-- `.context(…)`: the text that an error then shows.
abbrev pub explained : {A : Type 0} → Text → Outcome A → Outcome A
explained text (ok a) = ok a
explained text (err e) = err text
explained text panicked = panicked

abbrev pub context : {S A : Type 0} → Text → Action S A → Action S A
context text m s = (explained text (m s).0, (m s).1)

module _ {W : Type 0} (h : Host W) where
  -- `CurrentSettings::default`
  unfoldable pub fresh_settings : Action (Daemon W) CurrentSettings
  fresh_settings s =
      let (client_id, w) = h.hash_now s.world in
      (ok (default_settings client_id), record s { world = w })

  unfoldable pub save : CurrentSettings → Action (Daemon W) (Unit {0})
  save settings = do
    on_world h.create_state_dir
    on_world h.create_state_file
    on_world (h.encode_settings settings)

  abbrev pub load_existing : Bool → Action (Daemon W) CurrentSettings
  load_existing false = fresh_settings
  load_existing true = do
    context (codes "Failed to open state file") (on_world h.open_state_file)
    context (codes "Failed decode state file!") (on_world h.decode_settings)

  unfoldable pub load : Action (Daemon W) CurrentSettings
  load = do
    exists ← context (codes "Cannot get access to state file") (on_world h.state_exists)
    load_existing exists

  abbrev pub or_default : Outcome CurrentSettings → Action (Daemon W) CurrentSettings
  or_default (ok settings) = pure settings
  or_default (err e) = fresh_settings
  or_default panicked = panic

  unfoldable pub load_or_default : Action (Daemon W) CurrentSettings
  load_or_default = do loaded ← attempt load; or_default loaded

  unfoldable pub restore_state : EcDevice → CurrentSettings → Action (Daemon W) (Unit {0})
  restore_state ec self = do
    apply_keyboard_backlight h ec self.keyboard_backlight
    apply_led_mode h ec self.led_mode
    done ← apply_power_profile h ec self.power_profile
    apply_charge_limit h ec self.charge_limit
    apply_fan_mode h ec cpu self.fan_mode_cpu
    apply_fan_mode h ec gpu self.fan_mode_gpu

module _ {W : Type 0} where
  abbrev pub unlocked : Bool → CurrentSettings → Action (Daemon W) CurrentSettings
  unlocked true settings = fail (codes "State locked, cannot acquire lock")
  unlocked false settings = pure settings

  abbrev pub initialised : Option CurrentSettings → Bool → Action (Daemon W) CurrentSettings
  initialised none locked = fail (codes "State not initialized. How did you get here?")
  initialised (some settings) locked = unlocked locked settings

  -- `get_state`: the settings behind the lock, which is only tried.
  unfoldable pub get_state : Action (Daemon W) CurrentSettings
  get_state s = initialised s.statics.settings s.statics.state_locked s

  -- A write through the guard.
  unfoldable pub put_state : CurrentSettings → Action (Daemon W) (Unit {0})
  put_state settings =
      modify (λ s. record s { statics = record (s.statics) { settings = some settings } })
