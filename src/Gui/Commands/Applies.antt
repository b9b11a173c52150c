-- ===== src/Gui/Commands/Applies.antt =====
-- What the window's commands do to the daemon's settings, each request answered by `do_work`.
use lecoo_control_center.Base.{ℕ, ◌≡◌, refl, true, Option, arith}
use lecoo_control_center.Base.Text.{codes}
use lecoo_control_center.Base.Action.{Outcome, ok, err, panicked, proceed, ◌>>=◌}
use lecoo_control_center.State.{Daemon}
use lecoo_control_center.Ec.Host.{Host}
use lecoo_control_center.Ec.Device.{EcDevice}
use lecoo_control_center.Ipc.Settings.{CurrentSettings}
use lecoo_control_center.Ipc.Message.{IpcRequest, IpcResponse}
use lecoo_control_center.Handlers.Settings.{explained}
use lecoo_control_center.Handlers.Requests.{do_work}
use lecoo_control_center.Handlers.Stored.{intended}
use lecoo_control_center.Handlers.Answers.{succeeded, Applied}
use lecoo_control_center.Handlers.Success.{do_work_success_applies}
use lecoo_control_center.Gui.Desktop.{World, Gui, gui_connect, gui_request}
use lecoo_control_center.Gui.Commands.{accepted, send_one}

-- A world whose daemon is the one that runs `do_work`, reached in any way that leaves it alone.
pub record IsDaemonWorld {W : Type 0} (h : Host W) (ec : EcDevice) (d : World (Daemon W))
    : Type 0 where
  pub connect_keeps : (s : Daemon W) → (d.connect s).1 ≡ s
  pub request_works : (req : IpcRequest) (s : Daemon W) → d.request req s ≡ do_work h ec req s

module _ {W : Type 0} (h : Host W) (ec : EcDevice) (d : World (Daemon W))
    (real : IsDaemonWorld h ec d) where
  answered :
      (f : CurrentSettings → CurrentSettings) (before : Option CurrentSettings)
      (o : Outcome IpcResponse) (t : Gui (Daemon W))
      → (succeeded o ≡ true → Applied f before t.world.statics.settings)
      → (proceed (explained (codes "ipc request failed") o) (accepted d) t).0 ≡ ok tt
      → Applied f before
          (proceed
            (explained (codes "ipc request failed") o)
            (accepted d)
            t).1.world.statics.settings
  answered f before (ok IpcResponse.success) t k e = k refl
  answered f before (ok _) t k e = ground arith
  answered f before (err m) t k e = ground arith
  answered f before panicked t k e = ground arith

  connected :
      (req : IpcRequest) (s : Gui (Daemon W)) (o : Outcome (ℕ × ℕ))
      → (proceed
          (explained (codes "daemon not reachable") o)
          (λ _. gui_request d req >>= accepted d)
          s).0
        ≡ ok tt
      → Applied
          (intended req (h.hash_now s.world.world).0)
          s.world.statics.settings
          (proceed
            (explained (codes "daemon not reachable") o)
            (λ _. gui_request d req >>= accepted d)
            s).1.world.statics.settings
  unfolding gui_request
  connected req s (ok v) = rw (real.request_works req s.world) (
      answered (intended req (h.hash_now s.world.world).0) s.world.statics.settings
        (do_work h ec req s.world).0 (record s { world = (do_work h ec req s.world).1 })
        (do_work_success_applies h ec req s.world))
  connected req s (err m) = λ e. ground arith
  connected req s panicked = λ e. ground arith

  -- A command of the window that reports no error has found settings in the daemon and has stored
  -- there what its request asks for: no other answer of the daemon counts as done.
  pub send_one_applies :
      (req : IpcRequest) (s : Gui (Daemon W))
      → (send_one d req s).0 ≡ ok tt
      → Applied
          (intended req (h.hash_now s.world.world).0)
          s.world.statics.settings
          (send_one d req s).1.world.statics.settings
  unfolding send_one gui_connect
  send_one_applies req s = rw (real.connect_keeps s.world) (connected req s (d.connect s.world).0)
