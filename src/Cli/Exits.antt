-- ===== src/Cli/Exits.antt =====
-- What a client that exits with 0 has made of the daemon's settings.
use lecoo_control_center.Base.{ℕ, ◌≡◌, refl, ◌⊎◌, inl, inr, true, Option, some, arith}
use lecoo_control_center.Base.Text.{Text}
use lecoo_control_center.Base.Action.{Outcome, ok, err, panicked, proceed}
use lecoo_control_center.State.{Daemon}
use lecoo_control_center.Ec.Host.{Host}
use lecoo_control_center.Ec.Device.{EcDevice}
use lecoo_control_center.Ipc.Settings.{CurrentSettings}
use lecoo_control_center.Ipc.Message.{DaemonResponse, IpcRequest, IpcResponse}
use lecoo_control_center.Handlers.Requests.{do_work}
use lecoo_control_center.Handlers.Stored.{intended}
use lecoo_control_center.Handlers.Answers.{Applied}
use lecoo_control_center.Handlers.Setters.{is_setter, setter-Stores}
use lecoo_control_center.Cli.{Commands, Chosen, choose}
use lecoo_control_center.Cli.Main.{Remote, Words, Console, ask, report, main}
use lecoo_control_center.Cli.Served.{IsServed}

module _ {W : Type 0} (h : Host W) (ec : EcDevice) (remote : Remote (Daemon W)) (words : Words)
    (served : IsServed h ec remote) where
  reported :
      (f : CurrentSettings → CurrentSettings) (before : Option CurrentSettings)
      (o : Outcome IpcResponse) (t : Console (Daemon W))
      → ((a : IpcResponse)
          → o ≡ ok a
          → Applied f before t.daemon.statics.settings ⊎ ((e : Text) × (a ≡ IpcResponse.error e)))
      → let r =
          proceed o
            (λ res u.
              proceed
                (report remote words res u).0
                (λ code v. (ok (some code), v))
                (report remote words res u).1)
            t in
        r.0 ≡ ok (some 0) → Applied f before r.1.daemon.statics.settings
  unfolding report
  reported f before (ok (IpcResponse.error m)) t k e = ground arith
  reported f before (ok (IpcResponse.daemon_response (DaemonResponse.settings x))) t k e =
      elim (k _ refl) [ inl p ↦ p | inr (m, p) ↦ cc ]
  reported f before (ok (IpcResponse.daemon_response (DaemonResponse.telemetry_id x))) t k e =
      elim (k _ refl) [ inl p ↦ p | inr (m, p) ↦ cc ]
  reported f before (ok a) t k e = elim (k a refl) [ inl p ↦ p | inr (m, p) ↦ cc ]
  reported f before (err m) t k e = ground arith
  reported f before panicked t k e = ground arith

  -- On any host, whatever the client was asked to do before: if its command came to a request that
  -- sets the power profile, a fan's mode, the backlight, the charge limit, the LED mode or the
  -- telemetry's switch, or restores the defaults, and the process exits with 0, then the daemon had
  -- settings when it received that request, and has stored in them what the request asks for.
  pub exit_0_applies :
      (F32 : Type 0) (millis : Option F32 → ℕ) (rounds : ℕ) (command : Commands F32)
      (req : IpcRequest) (s t : Console (Daemon W))
      → choose (ask remote words) command s ≡ (ok (Chosen.request req), t)
      → is_setter req ≡ true
      → (main remote words millis rounds command s).0 ≡ ok (some 0)
      → Applied
          (intended req (h.hash_now t.daemon.world).0)
          t.daemon.statics.settings
          (main remote words millis rounds command s).1.daemon.statics.settings
  unfolding main
  exit_0_applies F32 millis rounds command req s t chosen setter =
      rw (served.connects s.daemon, chosen, served.request_works)
        (reported (intended req (h.hash_now t.daemon.world).0) t.daemon.statics.settings
          (do_work h ec req t.daemon).0 (record t { daemon = (do_work h ec req t.daemon).1 })
          (λ a. setter-Stores h ec req t.daemon a setter))
