-- ===== src/Telemetry/Frame.antt =====
-- The telemetry worker leaves the daemon's statics alone on any host, however its calls end.
use lecoo_control_center.Base.{ℕ, refl, Option, none, some, List}
use lecoo_control_center.Base.Action.{Action, Outcome, ok, err, panicked, gets}
use lecoo_control_center.State.{Daemon, Statics}
use lecoo_control_center.Ec.Host.{Host}
use lecoo_control_center.Ec.Device.{EcDevice}
use lecoo_control_center.Ec.Frame.{Keeps, frame}
use lecoo_control_center.Ipc.Message.{TelemetryData}
use lecoo_control_center.Hw.Frame.{hw_frame}
use lecoo_control_center.Telemetry.{
  Uplink, Received, post_bytes, send_to_server, if_read, send_status, send_status_of, work_once,
}

module _ {X : Type 0} {obs : Statics → X} {W : Type 0} (h : Host W) (uplink : Uplink W) where
  gets-Keeps : {A : Type 0} (f : Daemon W → A) → Keeps obs (gets f)
  gets-Keeps f = record { same = λ s. refl }

  post_bytes-Keeps : (o : Option (List ℕ)) → Keeps obs (post_bytes h uplink o)
  post_bytes-Keeps none = search frame
  post_bytes-Keeps (some bytes) = search frame

  send_to_server-Keeps : (content : TelemetryData) → Keeps obs (send_to_server h uplink content)
  unfolding send_to_server
  send_to_server-Keeps content = search (frame, gets-Keeps, post_bytes-Keeps)

  if_read-Keeps :
      {A : Type 0} {f : A → Action (Daemon W) (Unit {0})} (o : Outcome A)
      → ((a : A) → Keeps obs (f a))
      → Keeps obs (if_read h uplink f o)
  if_read-Keeps (ok a) k = k a
  if_read-Keeps (err e) k = search frame
  if_read-Keeps panicked k = search frame

  send_status-Keeps : (ec : EcDevice) → Keeps obs (send_status h uplink ec)
  send_status-Keeps ec = search (frame, hw_frame, if_read-Keeps, send_to_server-Keeps) depth 12

  status_of-Keeps : (o : Option EcDevice) → Keeps obs (send_status_of h uplink o)
  status_of-Keeps none = search frame
  status_of-Keeps (some ec) = send_status-Keeps ec

  pub work_once-Keeps : (o : Option EcDevice) (r : Received) → Keeps obs (work_once h uplink o r)
  unfolding work_once
  work_once-Keeps o (Received.message content) = search (frame, gets-Keeps, send_to_server-Keeps)
  work_once-Keeps o Received.timeout = search (frame, gets-Keeps, status_of-Keeps)
  work_once-Keeps o Received.disconnected = search frame
