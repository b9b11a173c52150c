-- ===== src/Startup/Agrees.antt =====
-- After the start, what the telemetry runs with is what the stored settings say.
use lecoo_control_center.Base.{
  ℕ, ◌≡◌, refl, ◌∙◌, ap, Bool, true, false, Option, none, some, List, if◌then◌else◌,
}
use lecoo_control_center.Base.Text.{Text, codes}
use lecoo_control_center.Base.Action.{
  Action, Outcome, ok, err, panicked, pure, modify, ignore, ◌>>◌,
}
use lecoo_control_center.Base.Ends.{Ends, bind-Ends, Ends-ok}
use lecoo_control_center.State.{Daemon, Statics, on_world}
use lecoo_control_center.Ec.Host.{Host}
use lecoo_control_center.Ec.Device.{EcDevice}
use lecoo_control_center.Ec.Frame.{Keeps, frame}
use lecoo_control_center.Ec.Probe.{new_device}
use lecoo_control_center.Ec.Probe.Detected.{IsDetected, new_device-IsDetected}
use lecoo_control_center.Ec.Probe.Returns.{Returns-ok}
use lecoo_control_center.Ec.Probe.Frame.{new_device-Keeps}
use lecoo_control_center.Ipc.Settings.{CurrentSettings}
use lecoo_control_center.Ipc.Message.{TelemetryData}
use lecoo_control_center.Hw.Frame.{hw_frame}
use lecoo_control_center.Handlers.Settings.{
  context, load, load_existing, load_or_default, or_default, restore_state,
}
use lecoo_control_center.Handlers.Frame.{fresh_settings-Keeps, restoring-Keeps}
use lecoo_control_center.Telemetry.{init, send, set_tx, queued}
use lecoo_control_center.Startup.{
  Target, Boot, announce, start_telemetry, or_set, has_arg, begin, startup,
}

-- What of the statics the start is about.
abbrev pub shown : Statics → Option CurrentSettings × Bool × ℕ
shown t = (t.settings, t.telemetry_enabled, t.telemetry_id)

module _ {W A : Type 0} where
  kept-Ends :
      (m : Action (Daemon W) A) (x : Option CurrentSettings × Bool × ℕ) (s : Daemon W)
      → Keeps shown m
      → shown s.statics ≡ x
      → Ends (λ _ t. shown t.statics ≡ x) (m s)
  kept-Ends m x s k e = split (m s).0 (m s).1 (k.same s ∙ e)
    where
      split :
          (o : Outcome A) (t : Daemon W)
          → shown t.statics ≡ x
          → Ends (λ _ t'. shown t'.statics ≡ x) (o, t)
      split (ok a) t q = q
      split (err m) t q = tt
      split panicked t q = tt

module _ {W : Type 0} (h : Host W) (boot : Boot W) where
  context-Keeps :
      {A : Type 0} (e : Text) {m : Action (Daemon W) A} → Keeps shown m → Keeps shown (context e m)
  context-Keeps e k = record { same = λ s. k.same s }

  existing-Keeps : (exists : Bool) → Keeps shown (load_existing h exists)
  existing-Keeps true = search (frame, context-Keeps)
  existing-Keeps false = fresh_settings-Keeps h

  or_default-Keeps : (o : Outcome CurrentSettings) → Keeps shown (or_default h o)
  or_default-Keeps (ok st) = search frame
  or_default-Keeps (err e) = fresh_settings-Keeps h
  or_default-Keeps panicked = search frame

  load-Keeps : Keeps shown (load_or_default h)
  unfolding load_or_default load
  load-Keeps = search (frame, context-Keeps, existing-Keeps, or_default-Keeps) depth 8

  restore-Keeps : (ec : EcDevice) (st : CurrentSettings) → Keeps shown (restore_state h ec st)
  restore-Keeps = restoring-Keeps shown h (λ b t. refl)

  abbrev push : TelemetryData → Action (Daemon W) (Unit {0})
  push content = modify (λ s. record s {
    statics = record (s.statics) { telemetry_tx = queued content s.statics.telemetry_tx };
  })

  send-Keeps : (content : TelemetryData) → Keeps shown (send {W = W} content)
  unfolding send
  send-Keeps content = record { same = λ s. pushed s.statics.telemetry_enabled s }
    where
      pushed :
          (b : Bool) (s : Daemon W)
          → shown ((if b then push content else pure tt) s).1.statics ≡ shown s.statics
      pushed true s = refl
      pushed false s = refl

  announce-Keeps : (ec : EcDevice) → Keeps shown (announce h boot ec)
  announce-Keeps ec = search (frame, hw_frame, send-Keeps) depth 8

  -- What the telemetry runs with once it is started.
  abbrev IsBegun : CurrentSettings → Daemon W → Unit {0} → Daemon W → Type 0
  IsBegun st s u t =
      shown t.statics ≡ (s.statics.settings, st.telemetry_enabled, st.telemetry_client_id)

  abbrev switched : CurrentSettings → Daemon W → Daemon W
  switched st s = record s {
    statics = record (s.statics) { telemetry_enabled = st.telemetry_enabled };
  }

  abbrev identify : CurrentSettings → Action (Daemon W) (Unit {0})
  identify st =
      modify
        (λ s. record s { statics = record (s.statics) { telemetry_id = st.telemetry_client_id } })

  init-Ends :
      (st : CurrentSettings) (s : Daemon W)
      → Ends (IsBegun st s) (init st.telemetry_enabled st.telemetry_client_id s)
  unfolding init
  init-Ends st s = split s.statics.telemetry_tx
    where
      split :
          (o : Option (List TelemetryData))
          → Ends (IsBegun st s) ((set_tx o >> identify st) (switched st s))
      split none = refl
      split (some queue) = tt

  telemetry-Ends :
      (ec : EcDevice) (st : CurrentSettings) (s : Daemon W)
      → Ends (IsBegun st s) (start_telemetry h boot ec st s)
  telemetry-Ends ec st s =
      bind-Ends (IsBegun st s) (init st.telemetry_enabled st.telemetry_client_id)
        (λ _. if st.telemetry_enabled then announce h boot ec else pure tt) s
        λ u done.
          kept-Ends (if st.telemetry_enabled then announce h boot ec else pure tt) _ _
            (search (frame, announce-Keeps))
            (Ends-ok (IsBegun st s) (init st.telemetry_enabled st.telemetry_client_id s)
              (init-Ends st s) done)

  -- A start that returns.
  abbrev pub Agrees : EcDevice → Daemon W → Type 0
  Agrees ec t =
      IsDetected ec
      × ((st : CurrentSettings) × (t.statics.settings ≡ some st)
          × (t.statics.telemetry_enabled ≡ st.telemetry_enabled)
          × (t.statics.telemetry_id ≡ st.telemetry_client_id))

  -- On any host, built for either system and whatever its arguments: a start that returns, from a process whose settings are not set, has a device that a
  -- probed port, a known board and a possible window base give, and has set the settings; the
  -- telemetry's switch and client id are those of the settings. An error while the settings are
  -- restored to the hardware does not change that.
  pub startup-Agrees :
      (target : Target) (args : List Text) (s : Daemon W)
      → s.statics.settings ≡ none
      → Ends Agrees (startup h boot target args s)
  unfolding startup
  startup-Agrees target args s unset =
      let insecure = has_arg h boot (codes "--insecure") args in
      let starts = on_world (begin h boot target args) in
      bind-Ends Agrees starts _ s λ u0 begun.
        let t0 = (starts s).1 in
        bind-Ends Agrees (on_world boot.bind) _ t0 λ u bound.
          let t1 = (on_world boot.bind t0).1 in
          bind-Ends Agrees (new_device h insecure) _ t1 λ ec found.
            let t2 = (new_device h insecure t1).1 in
            bind-Ends Agrees (load_or_default h) _ t2 λ st loaded.
              let t3 = (load_or_default h t2).1 in
              bind-Ends Agrees (ignore (restore_state h ec st)) _ t3 λ u' restored.
                let t4 = (restore_state h ec st t3).1 in
                bind-Ends Agrees (start_telemetry h boot ec st) _ t4 λ u'' began.
                  let t5 = start_telemetry h boot ec st t4 in
                  let runs = Ends-ok (IsBegun st t4) t5 (telemetry-Ends ec st t4) began in
                  let same =
                    (restore-Keeps ec st).same t3
                    ∙ load-Keeps.same t2
                    ∙ (new_device-Keeps {obs = shown} h insecure).same t1 in
                  let empty = ap (λ x. x.0) runs ∙ ap (λ x. x.0) same ∙ unset in
                  (
                    Returns-ok IsDetected (new_device h insecure t1).0
                        (new_device-IsDetected h insecure t1) found,
                    (st, ap (or_set h boot st) empty, ap (λ x. x.1) runs, ap (λ x. x.2) runs),
                  )
