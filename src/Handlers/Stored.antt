-- ===== src/Handlers/Stored.antt =====
-- The stored settings, what a request is to make of them, and the calls that move them by one step.
use lecoo_control_center.Base.{
  ℕ, ◌≡◌, refl, subst, Bool, true, false, Option, none, some, ◌⊎◌, inl, inr,
}
use lecoo_control_center.Base.Action.{
  Action, Outcome, ok, err, panicked, pure, proceed, modify, ◌>>=◌, ◌>>◌,
}
use lecoo_control_center.State.{Daemon, Statics}
use lecoo_control_center.Ec.Host.{Host}
use lecoo_control_center.Ec.Device.{EcDevice}
use lecoo_control_center.Ec.Frame.{Keeps, frame}
use lecoo_control_center.Ipc.Settings.{CurrentSettings, PowerLedMode, default_settings}
use lecoo_control_center.Ipc.Message.{DaemonCommand, IpcRequest, IpcResponse}
use lecoo_control_center.Hw.Led.{apply_led_mode}
use lecoo_control_center.Handlers.Settings.{save, restore_state, get_state, put_state, initialised}
use lecoo_control_center.Handlers.Requests.{with_fan_mode, switch_telemetry}
use lecoo_control_center.Handlers.Frame.{save-Keeps, led_mode-Keeps, restoring-Keeps}

abbrev pub stored : Statics → Option CurrentSettings
stored t = t.settings

-- What a request is to make of the settings; `id` is the client id of new settings.
abbrev pub intended : IpcRequest → ℕ → CurrentSettings → CurrentSettings
intended (IpcRequest.set_power_profile profile) id st = record st { power_profile = profile }
intended (IpcRequest.set_fan_mode fan mode) id st = with_fan_mode fan mode st
intended (IpcRequest.set_keyboard_backlight level) id st = record st { keyboard_backlight = level }
intended (IpcRequest.set_charge_limit limit) id st = record st { charge_limit = limit }
intended (IpcRequest.set_led_mode mode) id st = record st { led_mode = mode }
intended (IpcRequest.daemon_command DaemonCommand.restore_defaults) id st = default_settings id
intended (IpcRequest.daemon_command (DaemonCommand.activate_telemetry b)) id st = record st {
  telemetry_enabled = b;
}
intended _ id st = st

-- The settings are as before, or are the old ones with `f` applied.
abbrev pub Moved :
    (CurrentSettings → CurrentSettings) → Option CurrentSettings → Option CurrentSettings → Type 0
Moved f before after =
    (after ≡ before) ⊎ ((st : CurrentSettings) × (before ≡ some st) × (after ≡ some (f st)))

module _ {W : Type 0} where
  -- `let mut state = get_state()?; *state = f(state); rest`
  abbrev pub guarded :
      {A : Type 0}
      → (CurrentSettings → CurrentSettings)
      → (CurrentSettings → Action (Daemon W) A)
      → Action (Daemon W) A
  guarded f rest = get_state >>= λ st. put_state (f st) >> rest st

  pub guarded-Moved :
      {A : Type 0} (f : CurrentSettings → CurrentSettings)
      (rest : CurrentSettings → Action (Daemon W) A) (s : Daemon W)
      → ((st : CurrentSettings) → Keeps stored (rest st))
      → Moved f s.statics.settings (guarded f rest s).1.statics.settings
  unfolding get_state put_state
  guarded-Moved f rest s k = split s.statics.settings s.statics.state_locked refl
    where
      split :
          (o : Option CurrentSettings) (b : Bool)
          → s.statics.settings ≡ o
          → Moved f s.statics.settings
              (proceed
                (initialised o b s).0
                (λ st.
                  modify (λ (t : Daemon W). record t {
                    statics = record (t.statics) { settings = some (f st) };
                  })
                  >> rest st)
                (initialised o b s).1).1.statics.settings
      split none b e = inl refl
      split (some st) true e = inl refl
      split (some st) false e = inr (st, e, (k st).same _)

  -- After a call that keeps the settings.
  pub after-Moved :
      {A B : Type 0} (f : CurrentSettings → CurrentSettings) (m : Action (Daemon W) A)
      (n : Action (Daemon W) B) (s : Daemon W)
      → Keeps stored m
      → ((t : Daemon W) → Moved f t.statics.settings (n t).1.statics.settings)
      → Moved f s.statics.settings ((m >>= λ _. n) s).1.statics.settings
  after-Moved {A = A} {B = B} f m n s k p = split (m s).0
    where
      split :
          (o : Outcome A)
          → Moved f s.statics.settings (proceed o (λ _. n) (m s).1).1.statics.settings
      split (ok a) = subst (λ o. Moved f o (n (m s).1).1.statics.settings) (k.same s) (p (m s).1)
      split (err e) = inl (k.same s)
      split panicked = inl (k.same s)

module _ {W : Type 0} (h : Host W) (ec : EcDevice) where
  -- A setter of the settings, after its call of the device.
  pub setter-Moved :
      (f : CurrentSettings → CurrentSettings) {A : Type 0} (m : Action (Daemon W) A) (s : Daemon W)
      → Keeps stored m
      → Moved f s.statics.settings
          ((m >>= λ _. guarded f (λ _. pure IpcResponse.success)) s).1.statics.settings
  setter-Moved f m s k =
      after-Moved f m (guarded f (λ _. pure IpcResponse.success)) s k
        (λ t. guarded-Moved f (λ _. pure IpcResponse.success) t (λ st. record { same = λ u. refl }))

  skips : (b : Bool) (t : Statics) → stored (record t { is_led_already_custom = b }) ≡ stored t
  skips b t = refl

  pub led-Keeps : (mode : PowerLedMode) → Keeps stored (apply_led_mode h ec mode)
  led-Keeps = led_mode-Keeps stored h skips ec

  pub switch_telemetry-Keeps : (b : Bool) → Keeps stored (switch_telemetry h b)
  switch_telemetry-Keeps true = record { same = λ s. refl }
  switch_telemetry-Keeps false = record { same = λ s. refl }

  pub restore_state-Keeps : (st : CurrentSettings) → Keeps stored (restore_state h ec st)
  restore_state-Keeps = restoring-Keeps stored h skips ec

  -- The rest of `RestoreDefaults`, once the new settings are in place.
  abbrev pub after_reset : CurrentSettings → Action (Daemon W) IpcResponse
  after_reset st = save h st >> (restore_state h ec st >> pure IpcResponse.success)

  pub after_reset-Keeps : (st : CurrentSettings) → Keeps stored (after_reset st)
  after_reset-Keeps st = search (frame, save-Keeps, restore_state-Keeps)
