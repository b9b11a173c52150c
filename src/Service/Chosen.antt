-- ===== src/Service/Chosen.antt =====
-- What no event changes of the stored settings, on any host.
use lecoo_control_center.Base.{
  ℕ, ◌≡◌, refl, sym, ◌∙◌, ap, Bool, true, false, Option, none, some, List, [], ◌∷◌,
}
use lecoo_control_center.Base.Action.{
  Action, Outcome, ok, err, panicked, proceed, reify, attempt, ◌>>=◌,
}
use lecoo_control_center.State.{Daemon, Statics}
use lecoo_control_center.Ec.Host.{Host}
use lecoo_control_center.Ec.Device.{EcDevice}
use lecoo_control_center.Ec.Frame.{Keeps, frame, then-Keeps}
use lecoo_control_center.Ipc.Settings.{
  CurrentSettings, ChargeLimit, FanMode, PowerLedMode, from_predefined,
}
use lecoo_control_center.Hw.Charge.{read_charge_limit}
use lecoo_control_center.Hw.Keyboard.{read_keyboard_backlight}
use lecoo_control_center.Hw.Power.{read_power_profile}
use lecoo_control_center.Hw.Led.{apply_led_mode}
use lecoo_control_center.Hw.Frame.{hw_frame}
use lecoo_control_center.Handlers.Frame.{
  get_state-Keeps, save-Keeps, led_mode-Keeps, restoring-Keeps,
}
use lecoo_control_center.Handlers.Settings.{restore_state, get_state, put_state, initialised}
use lecoo_control_center.Service.{
  InternalEvent, with_known_limit, with_level, with_profile, with_limits, if_ok, absorb, refresh,
  read_and_save_state, show_charge_below, on_event, process_service,
}

-- The settings that are only ever set on request: the fan modes, the LED mode and the telemetry.
abbrev pub chosen : CurrentSettings → FanMode × FanMode × PowerLedMode × Bool × ℕ
chosen st =
    (st.fan_mode_cpu, st.fan_mode_gpu, st.led_mode, st.telemetry_enabled, st.telemetry_client_id)

abbrev pub all_chosen :
    Option CurrentSettings → Option (FanMode × FanMode × PowerLedMode × Bool × ℕ)
all_chosen none = none
all_chosen (some st) = some (chosen st)

abbrev pub stored_choice : Statics → Option (FanMode × FanMode × PowerLedMode × Bool × ℕ)
stored_choice t = all_chosen t.settings

module _ {W : Type 0} where
  -- Under held settings with the stored choice, a call keeps that choice.
  abbrev Holds : CurrentSettings → Action (Daemon W) (Unit {0}) → Type 0
  Holds held m =
      (s : Daemon W)
      → stored_choice s.statics ≡ some (chosen held)
      → stored_choice (m s).1.statics ≡ some (chosen held)

  absorb-Holds :
      {A : Type 0} (m : Action (Daemon W) A) (f : A → CurrentSettings → CurrentSettings)
      (held st : CurrentSettings) (rest : CurrentSettings → Action (Daemon W) (Unit {0}))
      → Keeps stored_choice m
      → chosen st ≡ chosen held
      → ((a : A) → chosen (f a st) ≡ chosen st)
      → ((next : CurrentSettings) → chosen next ≡ chosen held → Holds held (rest next))
      → Holds held (attempt m >>= λ o. absorb f st o >>= rest)
  unfolding put_state
  absorb-Holds {A = A} m f held st rest k same keeps holds s e = split (m s).0
    where
      split :
          (o : Outcome A)
          → stored_choice (proceed (reify o) (λ o. absorb f st o >>= rest) (m s).1).1.statics
            ≡ some (chosen held)
      split (ok a) = holds (f a st) (keeps a ∙ same) _ (ap some (keeps a ∙ same))
      split (err t) = holds st same _ (k.same s ∙ e)
      split panicked = k.same s ∙ e

module _ {W : Type 0} (h : Host W) (ec : EcDevice) where
  skips :
      (b : Bool) (t : Statics)
      → stored_choice (record t { is_led_already_custom = b }) ≡ stored_choice t
  skips b t = refl

  led-Keeps : (mode : PowerLedMode) → Keeps stored_choice (apply_led_mode h ec mode)
  led-Keeps = led_mode-Keeps stored_choice h skips ec

  limit_keeps :
      (o : Option ChargeLimit) (st : CurrentSettings) → chosen (with_known_limit o st) ≡ chosen st
  limit_keeps none st = refl
  limit_keeps (some l) st = refl

  refresh-Holds : (held : CurrentSettings) → Holds held (refresh h ec held)
  refresh-Holds held =
      absorb-Holds (read_keyboard_backlight h ec) with_level held held _ (search hw_frame) refl
        (λ a. refl)
        (λ st same.
          absorb-Holds (read_power_profile h ec) with_profile held st _ (search hw_frame) same
            (λ a. refl)
            (λ st same.
              absorb-Holds (read_charge_limit h ec) with_limits held st _ (search hw_frame) same
                (λ a. limit_keeps (from_predefined a.0 a.1) st)
                (λ st same s e. (save-Keeps {obs = stored_choice} h st).same s ∙ e)))

  read_and_save_state-Keeps : Keeps stored_choice (read_and_save_state h ec)
  unfolding read_and_save_state get_state
  read_and_save_state-Keeps = record {
    same = λ s. kept s.statics.settings s.statics.state_locked s refl;
  }
    where
      kept :
          (o : Option CurrentSettings) (b : Bool) (s : Daemon W)
          → s.statics.settings ≡ o
          → stored_choice
              (proceed
                (reify (initialised o b s).0)
                (if_ok (refresh h ec))
                (initialised o b s).1).1.statics
            ≡ stored_choice s.statics
      kept none b s e = refl
      kept (some st) true s e = refl
      kept (some st) false s e = refresh-Holds st s (ap all_chosen e) ∙ sym (ap all_chosen e)

  restore_state-Keeps : (st : CurrentSettings) → Keeps stored_choice (restore_state h ec st)
  restore_state-Keeps = restoring-Keeps stored_choice h skips ec

  if_ok-Keeps :
      {A : Type 0} {f : A → Action (Daemon W) (Unit {0})} (o : Outcome A)
      → ((a : A) → Keeps stored_choice (f a))
      → Keeps stored_choice (if_ok f o)
  if_ok-Keeps (ok a) k = k a
  if_ok-Keeps (err e) k = search frame
  if_ok-Keeps panicked k = search frame

  show_charge_below-Keeps : (current : ℕ) → Keeps stored_choice (show_charge_below h ec current)
  show_charge_below-Keeps current = search (frame, hw_frame, if_ok-Keeps)

  pub on_event-Keeps : (event : InternalEvent) → Keeps stored_choice (on_event h ec event)
  unfolding on_event
  on_event-Keeps InternalEvent.system_shutting_down =
      search (frame, led-Keeps, read_and_save_state-Keeps)
  on_event-Keeps InternalEvent.system_hibernating =
      search (frame, led-Keeps, read_and_save_state-Keeps)
  on_event-Keeps InternalEvent.system_sleeping =
      search (frame, led-Keeps, read_and_save_state-Keeps)
  on_event-Keeps InternalEvent.system_waking_up =
      search (frame, get_state-Keeps, if_ok-Keeps, restore_state-Keeps)
  on_event-Keeps InternalEvent.charger_connected =
      search (frame, hw_frame, if_ok-Keeps, show_charge_below-Keeps)
  on_event-Keeps InternalEvent.charger_disconnected = search (frame, hw_frame)
  on_event-Keeps InternalEvent.inited = search frame

  all_Keeps : (events : List InternalEvent) → Keeps stored_choice (process_service h ec events)
  unfolding process_service
  all_Keeps [] = search frame
  all_Keeps (event ∷ events) = then-Keeps (on_event-Keeps event) (all_Keeps events)

  -- Whatever events the service listener receives, on any host and however its calls end, the
  -- stored fan modes, LED mode, telemetry switch and client id are as they were: the sleeping
  -- animation is shown, not stored.
  pub process_service_keeps_choice :
      (events : List InternalEvent) (s : Daemon W)
      → stored_choice (process_service h ec events s).1.statics ≡ stored_choice s.statics
  process_service_keeps_choice events s = (all_Keeps events).same s
