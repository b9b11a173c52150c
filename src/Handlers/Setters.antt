-- ===== src/Handlers/Setters.antt =====
-- The requests that set something of the stored settings: what they are answered with, and that they
-- have stored it where that is no error.
use lecoo_control_center.Base.{
  ◌≡◌, refl, ap, ◌∙◌, Option, none, some, ◌⊎◌, inl, inr, Bool, true, false, ◌++◌, arith,
}
use lecoo_control_center.Base.Text.{Text, codes}
use lecoo_control_center.Base.Action.{
  Action, Outcome, ok, err, panicked, pure, proceed, reify, modify, ◌>>=◌, ◌>>◌,
}
use lecoo_control_center.State.{Daemon}
use lecoo_control_center.Ec.Host.{Host}
use lecoo_control_center.Ec.Device.{EcDevice}
use lecoo_control_center.Ipc.Message.{DaemonCommand, IpcRequest, IpcResponse}
use lecoo_control_center.Handlers.Stored.{intended, stored, guarded, switch_telemetry-Keeps}
use lecoo_control_center.Handlers.Frame.{save-Keeps}
use lecoo_control_center.Handlers.Settings.{get_state, put_state, initialised}
use lecoo_control_center.Ec.Frame.{Keeps, frame}
use lecoo_control_center.Ipc.Settings.{CurrentSettings}
use lecoo_control_center.Handlers.Answers.{succeeded, Applied}
use lecoo_control_center.Handlers.Success.{do_work_success_applies}
use lecoo_control_center.Handlers.Requests.{
  set_charge_limit, set_keyboard_backlight, set_fan_mode, set_power_profile, set_led_mode,
  process_daemon_command, response_of, handle, do_work,
}

-- The requests whose call returns nothing but success.
abbrev tells_success : IpcRequest → Bool
tells_success (IpcRequest.set_power_profile profile) = true
tells_success (IpcRequest.set_fan_mode fan mode) = true
tells_success (IpcRequest.set_keyboard_backlight level) = true
tells_success (IpcRequest.set_charge_limit limit) = true
tells_success (IpcRequest.set_led_mode mode) = true
tells_success (IpcRequest.daemon_command DaemonCommand.restore_defaults) = true
tells_success (IpcRequest.daemon_command (DaemonCommand.activate_telemetry b)) = b
tells_success _ = false

-- The five settings, the telemetry's switch, and the defaults.
abbrev pub is_setter : IpcRequest → Bool
is_setter (IpcRequest.daemon_command (DaemonCommand.activate_telemetry b)) = true
is_setter req = tells_success req

-- A call that returns nothing but success.
record OnlySuccess {S : Type 0} (m : Action S IpcResponse) : Type 0 where
  only : (s : S) (a : IpcResponse) → (m s).0 ≡ ok a → a ≡ IpcResponse.success

module _ {S : Type 0} where
  bind-OnlySuccess :
      {A : Type 0} (m : Action S A) (n : A → Action S IpcResponse)
      → ((a : A) → OnlySuccess (n a))
      → OnlySuccess (m >>= n)
  bind-OnlySuccess {A} m n k = record { only = λ s. split (m s).0 (m s).1 }
    where
      split :
          (o : Outcome A) (t : S) (a : IpcResponse)
          → (proceed o n t).0 ≡ ok a
          → a ≡ IpcResponse.success
      split (ok x) t a e = (k x).only t a e
      split (err e) t a p = ground arith
      split panicked t a p = ground arith

  then-OnlySuccess :
      (m : Action S (Unit {0})) (n : Action S IpcResponse) → OnlySuccess n → OnlySuccess (m >> n)
  then-OnlySuccess m n k = bind-OnlySuccess m (λ _. n) (λ _. k)

  success-OnlySuccess : OnlySuccess (pure {S = S} IpcResponse.success)
  success-OnlySuccess = record { only = λ s a e. ground arith }

ruleset only_success = (bind-OnlySuccess, then-OnlySuccess, success-OnlySuccess)

module _ {W : Type 0} (h : Host W) (ec : EcDevice) where
  handle-OnlySuccess : (req : IpcRequest) → tells_success req ≡ true → OnlySuccess (handle h ec req)
  unfolding handle set_charge_limit set_keyboard_backlight set_fan_mode set_power_profile
      set_led_mode process_daemon_command
  handle-OnlySuccess (IpcRequest.set_power_profile profile) e = search only_success
  handle-OnlySuccess (IpcRequest.set_fan_mode fan mode) e = search only_success
  handle-OnlySuccess (IpcRequest.set_keyboard_backlight level) e = search only_success
  handle-OnlySuccess (IpcRequest.set_charge_limit limit) e = search only_success
  handle-OnlySuccess (IpcRequest.set_led_mode mode) e = search only_success
  handle-OnlySuccess (IpcRequest.daemon_command DaemonCommand.restore_defaults) e =
      search only_success depth 12
  handle-OnlySuccess (IpcRequest.daemon_command (DaemonCommand.activate_telemetry true)) e =
      search only_success depth 12
  handle-OnlySuccess _ e = cc

  setter_answers :
      (req : IpcRequest) (s : Daemon W) (a : IpcResponse)
      → tells_success req ≡ true
      → (do_work h ec req s).0 ≡ ok a
      → (a ≡ IpcResponse.success) ⊎ ((e : Text) × (a ≡ IpcResponse.error e))
  unfolding do_work
  setter_answers req s a e = split (handle h ec req s).0 ((handle-OnlySuccess req e).only s)
    where
      split :
          (o : Outcome IpcResponse)
          → ((b : IpcResponse) → o ≡ ok b → b ≡ IpcResponse.success)
          → (proceed (reify o) response_of (handle h ec req s).1).0 ≡ ok a
          → (a ≡ IpcResponse.success) ⊎ ((e : Text) × (a ≡ IpcResponse.error e))
      split (ok b) k p = let q = k b refl in inl (ground arith)
      split (err m) k p = inr (codes "Processing request failed: " ++ m, ground arith)
      split panicked k p = ground arith

  abbrev turn_off : IpcRequest
  turn_off = IpcRequest.daemon_command (DaemonCommand.activate_telemetry false)

  -- What an answer tells of what has been stored.
  abbrev pub Stores : IpcRequest → Daemon W → IpcResponse → Type 0
  Stores req s a =
      Applied (intended req (h.hash_now s.world).0) s.statics.settings
        (do_work h ec req s).1.statics.settings
      ⊎ ((e : Text) × (a ≡ IpcResponse.error e))

  -- A call that has stored `f` of the settings whatever it returns.
  abbrev Leaves :
      (CurrentSettings → CurrentSettings)
      → Option CurrentSettings
      → Outcome IpcResponse × Daemon W
      → Type 0
  Leaves f before r = (a : IpcResponse) → r.0 ≡ ok a → Applied f before r.1.statics.settings

  guarded-Leaves :
      (f : CurrentSettings → CurrentSettings)
      (rest : CurrentSettings → Action (Daemon W) IpcResponse) (s : Daemon W)
      → ((st : CurrentSettings) → Keeps stored (rest st))
      → Leaves f s.statics.settings (guarded f rest s)
  unfolding get_state put_state
  guarded-Leaves f rest s k = split s.statics.settings s.statics.state_locked refl
    where
      split :
          (o : Option CurrentSettings) (b : Bool)
          → s.statics.settings ≡ o
          → Leaves f s.statics.settings (
              proceed
                (initialised o b s).0
                (λ st.
                  modify (λ (t : Daemon W). record t {
                    statics = record (t.statics) { settings = some (f st) };
                  })
                  >> rest st)
                (initialised o b s).1)
      split none b e = λ a x. ground arith
      split (some st) true e = λ a x. ground arith
      split (some st) false e = λ a x. (st, e, (k st).same _)

  answered :
      (f : CurrentSettings → CurrentSettings) (before : Option CurrentSettings)
      (o : Outcome IpcResponse) (t : Daemon W) (a : IpcResponse)
      → Leaves f before (o, t)
      → (proceed (reify o) response_of t).0 ≡ ok a
      → Applied f before (proceed (reify o) response_of t).1.statics.settings
        ⊎ ((e : Text) × (a ≡ IpcResponse.error e))
  answered f before (ok b) t a k e = inl (k b refl)
  answered f before (err m) t a k e = inr (codes "Processing request failed: " ++ m, ground arith)
  answered f before panicked t a k e = ground arith

  turned_off :
      (s : Daemon W) (a : IpcResponse) → (do_work h ec turn_off s).0 ≡ ok a → Stores turn_off s a
  unfolding do_work handle process_daemon_command
  turned_off s a e =
      answered (intended turn_off 0) s.statics.settings (handle h ec turn_off s).0
        (handle h ec turn_off s).1 a
        (guarded-Leaves (intended turn_off 0) _ s
          (λ st. search (frame, save-Keeps, switch_telemetry-Keeps)))
        e

  told :
      (req : IpcRequest) (s : Daemon W) (a : IpcResponse)
      → tells_success req ≡ true
      → (do_work h ec req s).0 ≡ ok a
      → Stores req s a
  told req s a sets e = elim (setter_answers req s a sets e) [
    | inl p ↦ inl (do_work_success_applies h ec req s (ap succeeded (e ∙ ap ok p)))
    | inr p ↦ inr p
  ]

  -- A request that sets something and is answered has been stored, or the answer is an error.
  pub setter-Stores :
      (req : IpcRequest) (s : Daemon W) (a : IpcResponse)
      → is_setter req ≡ true
      → (do_work h ec req s).0 ≡ ok a
      → Stores req s a
  setter-Stores (IpcRequest.daemon_command (DaemonCommand.activate_telemetry false)) s a sets e =
      turned_off s a e
  setter-Stores req s a sets e = told req s a sets e
