-- ===== src/Service.antt =====
-- The daemon's listener for system events: `process_service` (daemon/src/main.rs).
use lecoo_control_center.Base.{
  ℕ, Bool, true, false, Option, none, some, leb, if◌then◌else◌, List, [], ◌∷◌,
}
use lecoo_control_center.Base.Action.{
  Action, Outcome, ok, err, panicked, pure, panic, attempt, ignore, ◌>>=◌, ◌>>◌,
}
use lecoo_control_center.State.{Daemon}
use lecoo_control_center.Ec.Host.{Host}
use lecoo_control_center.Ec.Device.{EcDevice}
use lecoo_control_center.Ipc.Breath.{sleep}
use lecoo_control_center.Ipc.Settings.{
  CurrentSettings, PowerProfile, KeyboardBacklightLevel, ChargeLimit, PowerLedMode, from_predefined,
}
use lecoo_control_center.Hw.Charge.{read_charge_limit, read_battery_rsoc}
use lecoo_control_center.Hw.Keyboard.{read_keyboard_backlight}
use lecoo_control_center.Hw.Power.{read_power_profile}
use lecoo_control_center.Hw.Led.{apply_led_mode, apply_battery_leds}
use lecoo_control_center.Handlers.Settings.{save, restore_state, get_state, put_state}
pub mod Chosen

pub data InternalEvent : Type 0 where
  system_shutting_down : InternalEvent
  system_sleeping : InternalEvent
  system_hibernating : InternalEvent
  system_waking_up : InternalEvent
  charger_connected : InternalEvent
  charger_disconnected : InternalEvent
  inited : InternalEvent

abbrev pub with_level : KeyboardBacklightLevel → CurrentSettings → CurrentSettings
with_level level st = record st { keyboard_backlight = level }

abbrev pub with_profile : PowerProfile → CurrentSettings → CurrentSettings
with_profile profile st = record st { power_profile = profile }

-- `if let Some(limit) = from_predefined(..) { state.charge_limit = limit }`
abbrev pub with_known_limit : Option ChargeLimit → CurrentSettings → CurrentSettings
with_known_limit none st = st
with_known_limit (some limit) st = record st { charge_limit = limit }

abbrev pub with_limits : ℕ × ℕ → CurrentSettings → CurrentSettings
with_limits limits st = with_known_limit (from_predefined limits.0 limits.1) st

-- What `if let Ok(a) = … { … }` and `.map(…)` do with a result that is not looked at any more.
abbrev pub if_ok : {S A : Type 0} → (A → Action S (Unit {0})) → Outcome A → Action S (Unit {0})
if_ok f (ok a) = f a
if_ok f (err e) = pure tt
if_ok f panicked = panic

module _ {W : Type 0} where
  -- A field of the guarded settings set from a read that succeeded; the settings as they are then.
  abbrev pub absorb :
      {A : Type 0}
      → (A → CurrentSettings → CurrentSettings)
      → CurrentSettings
      → Outcome A
      → Action (Daemon W) CurrentSettings
  absorb f st (ok a) = put_state (f a st) >> pure (f a st)
  absorb f st (err e) = pure st
  absorb f st panicked = panic

module _ {W : Type 0} (h : Host W) (ec : EcDevice) where
  abbrev pub refresh : CurrentSettings → Action (Daemon W) (Unit {0})
  refresh held = do
    kbd ← attempt (read_keyboard_backlight h ec)
    st ← absorb with_level held kbd
    profile ← attempt (read_power_profile h ec)
    st ← absorb with_profile st profile
    limits ← attempt (read_charge_limit h ec)
    st ← absorb with_limits st limits
    ignore (save h st)

  unfoldable pub read_and_save_state : Action (Daemon W) (Unit {0})
  read_and_save_state = do guard ← attempt get_state; if_ok refresh guard

  -- Which battery LED tells that the charger is in.
  abbrev pub show_charge : ℕ → ℕ × ℕ → Action (Daemon W) (Unit {0})
  show_charge current limits =
      if leb limits.1 current
      then ignore (apply_battery_leds h ec false true)
      else ignore (apply_battery_leds h ec true false)

  abbrev pub show_charge_below : ℕ → Action (Daemon W) (Unit {0})
  show_charge_below current = do
    limits ← attempt (read_charge_limit h ec)
    if_ok (show_charge current) limits

  unfoldable pub on_event : InternalEvent → Action (Daemon W) (Unit {0})
  on_event InternalEvent.system_shutting_down = do
    ignore (apply_led_mode h ec PowerLedMode.auto)
    read_and_save_state
  on_event InternalEvent.system_hibernating = do
    ignore (apply_led_mode h ec PowerLedMode.auto)
    read_and_save_state
  on_event InternalEvent.system_sleeping = do
    ignore (apply_led_mode h ec (PowerLedMode.animation sleep))
    read_and_save_state
  on_event InternalEvent.system_waking_up = do
    state ← attempt get_state
    if_ok (λ st. ignore (restore_state h ec st)) state
  on_event InternalEvent.charger_connected = do
    current ← attempt (read_battery_rsoc h ec)
    if_ok show_charge_below current
  on_event InternalEvent.charger_disconnected = ignore (apply_battery_leds h ec false false)
  on_event InternalEvent.inited = pure tt

  -- The loop, on the events received until the channel is closed.
  unfoldable pub process_service : List InternalEvent → Action (Daemon W) (Unit {0})
  process_service [] = pure tt
  process_service (event ∷ events) = do on_event event; process_service events
