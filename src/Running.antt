-- ===== src/Running.antt =====
-- The daemon at run time, after `main` has started its threads (daemon/src/main.rs): the connections'
-- requests, the listener's events and the telemetry worker take turns on one state. A call runs
-- alone; between calls another thread may take or release the lock of the settings.
pub mod Safe
pub mod Silent
use lecoo_control_center.Base.{Bool, some}
use lecoo_control_center.State.{Daemon}
use lecoo_control_center.Ec.Host.{Host}
use lecoo_control_center.Ec.Device.{EcDevice}
use lecoo_control_center.Ipc.Settings.{CurrentSettings}
use lecoo_control_center.Ipc.Message.{IpcRequest, TelemetryData}
use lecoo_control_center.Handlers.Settings.{save}
use lecoo_control_center.Handlers.Requests.{do_work}
use lecoo_control_center.Service.{InternalEvent, on_event}
use lecoo_control_center.Telemetry.{Uplink, Received, send, work_once}

module _ {W : Type 0} (h : Host W) (uplink : Uplink W) (ec : EcDevice) where
  -- One call of one thread, from the state that it starts in to the one that it leaves.
  pub data Step : Daemon W → Daemon W → Type 0 where
    request : (req : IpcRequest) (s : Daemon W) → Step s (do_work h ec req s).1
    event : (e : InternalEvent) (s : Daemon W) → Step s (on_event h ec e s).1
    receipt : (r : Received) (s : Daemon W) → Step s (work_once h uplink (some ec) r s).1
    telemetry : (content : TelemetryData) (s : Daemon W) → Step s (send content s).1
    saving : (st : CurrentSettings) (s : Daemon W) → Step s (save h st s).1
    locking :
        (b : Bool) (s : Daemon W)
        → Step s (record s { statics = record (s.statics) { state_locked = b } })

  pub data Reaches : Daemon W → Daemon W → Type 0 where
    here : {s : Daemon W} → Reaches s s
    further : {s t u : Daemon W} → Reaches s t → Step t u → Reaches s u
