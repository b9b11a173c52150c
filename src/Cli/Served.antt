-- ===== src/Cli/Served.antt =====
-- The client in front of the daemon that runs `do_work`, which a connection leaves as it is.
use lecoo_control_center.Base.{ℕ, ◌≡◌}
use lecoo_control_center.Base.Action.{ok}
use lecoo_control_center.State.{Daemon}
use lecoo_control_center.Ec.Host.{Host}
use lecoo_control_center.Ec.Device.{EcDevice}
use lecoo_control_center.Ipc.Message.{IpcRequest}
use lecoo_control_center.Handlers.Requests.{do_work}
use lecoo_control_center.Cli.Main.{Remote}

pub record IsServed {W : Type 0} (h : Host W) (ec : EcDevice) (remote : Remote (Daemon W))
    : Type 0 where
  pub version : ℕ × ℕ
  pub connects : (s : Daemon W) → remote.connect s ≡ (ok version, s)
  pub request_works : (req : IpcRequest) (s : Daemon W) → remote.request req s ≡ do_work h ec req s
