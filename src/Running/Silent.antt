-- ===== src/Running/Silent.antt =====
-- The telemetry worker over any run in which nobody turns the telemetry on.
use lecoo_control_center.Base.{◌≡◌, ◌∙◌, Bool, false, ◌||◌, Option, some, inl, inr, List, arith}
use lecoo_control_center.Base.Action.{Action, Outcome, ok, err, panicked}
use lecoo_control_center.State.{Daemon}
use lecoo_control_center.Ec.Host.{Host}
use lecoo_control_center.Ec.Device.{EcDevice}
use lecoo_control_center.Ec.Frame.{Keeps, frame}
use lecoo_control_center.Ipc.Settings.{CurrentSettings}
use lecoo_control_center.Ipc.Message.{DaemonCommand, IpcRequest, IpcResponse, TelemetryData}
use lecoo_control_center.Hw.Frame.{hw_frame}
use lecoo_control_center.Handlers.Requests.{do_work}
use lecoo_control_center.Handlers.Frame.{get_state-Keeps, save-Keeps}
use lecoo_control_center.Handlers.Telemetry.{
  flag, asked_flag, put_state-Keeps, led-Keeps, restore_state-Keeps, do_work_switches_telemetry,
}
use lecoo_control_center.Service.{InternalEvent, absorb, if_ok, read_and_save_state, on_event}
use lecoo_control_center.Telemetry.{Uplink, Received, send, worker_loop}
use lecoo_control_center.Telemetry.Frame.{work_once-Keeps}
use lecoo_control_center.Telemetry.Silent.{turn_off, notice_is_off, disabled_worker_is_silent}
use lecoo_control_center.Running.{Step, Reaches}

-- Whether a request asks for the telemetry to be on.
abbrev pub asks_on : IpcRequest → Bool
asks_on (IpcRequest.daemon_command (DaemonCommand.activate_telemetry b)) = b
asks_on _ = false

module _ {W : Type 0} (h : Host W) (ec : EcDevice) where
  absorb-Keeps :
      {A : Type 0} (f : A → CurrentSettings → CurrentSettings) (st : CurrentSettings)
      (o : Outcome A)
      → Keeps {W = W} flag (absorb f st o)
  absorb-Keeps f st (ok a) = search (frame, put_state-Keeps h ec)
  absorb-Keeps f st (err e) = search frame
  absorb-Keeps f st panicked = search frame

  if_ok-Keeps :
      {A : Type 0} (f : A → Action (Daemon W) (Unit {0})) (o : Outcome A)
      → ((a : A) → Keeps flag (f a))
      → Keeps flag (if_ok f o)
  if_ok-Keeps f (ok a) k = k a
  if_ok-Keeps f (err e) k = search frame
  if_ok-Keeps f panicked k = search frame

  saving-Keeps : Keeps flag (read_and_save_state h ec)
  unfolding read_and_save_state
  saving-Keeps =
      search (frame, hw_frame, get_state-Keeps, if_ok-Keeps, absorb-Keeps, save-Keeps) depth 14

  event-Keeps : (event : InternalEvent) → Keeps flag (on_event h ec event)
  unfolding on_event
  event-Keeps InternalEvent.system_shutting_down = search (frame, led-Keeps, saving-Keeps)
  event-Keeps InternalEvent.system_hibernating = search (frame, led-Keeps, saving-Keeps)
  event-Keeps InternalEvent.system_sleeping = search (frame, led-Keeps, saving-Keeps)
  event-Keeps InternalEvent.system_waking_up =
      search (frame, get_state-Keeps, if_ok-Keeps, restore_state-Keeps)
  event-Keeps InternalEvent.charger_connected = search (frame, hw_frame, if_ok-Keeps) depth 12
  event-Keeps InternalEvent.charger_disconnected = search (frame, hw_frame)
  event-Keeps InternalEvent.inited = search frame

  request-off :
      (req : IpcRequest) (s : Daemon W)
      → asks_on req ≡ false
      → flag s.statics ≡ false
      → flag (do_work h ec req s).1.statics ≡ false
  request-off req s quiet off = elim (do_work_switches_telemetry h ec req s) [
    | inl same ↦ same ∙ off
    | inr asked ↦ unasked req _ quiet asked
  ]
    where
      unasked :
          (req : IpcRequest) (b : Bool) → asks_on req ≡ false → asked_flag req ≡ some b → b ≡ false
      unasked (IpcRequest.daemon_command (DaemonCommand.activate_telemetry c)) b quiet e =
          ground arith
      unasked _ b quiet e = ground arith

module _ {W : Type 0} (h : Host W) (uplink : Uplink W) (ec : EcDevice) where
  push-off :
      (content : TelemetryData) (s : Daemon W) → flag (send content s).1.statics ≡ flag s.statics
  unfolding send
  push-off content s = ground arith

  -- Whether a step, or any step of a run, is a request for the telemetry to be on.
  abbrev step_asks : {s t : Daemon W} → Step h uplink ec s t → Bool
  step_asks (Step.request req s) = asks_on req
  step_asks (Step.event e s) = false
  step_asks (Step.receipt r s) = false
  step_asks (Step.telemetry content s) = false
  step_asks (Step.saving st s) = false
  step_asks (Step.locking b s) = false

  abbrev pub run_asks : {s t : Daemon W} → Reaches h uplink ec s t → Bool
  run_asks Reaches.here = false
  run_asks (Reaches.further run last) = run_asks run || step_asks last

  step-off :
      {s t : Daemon W} (step : Step h uplink ec s t)
      → step_asks step ≡ false
      → flag s.statics ≡ false
      → flag t.statics ≡ false
  step-off (Step.request req s) quiet off = request-off h ec req s quiet off
  step-off (Step.event e s) quiet off = (event-Keeps h ec e).same s ∙ off
  step-off (Step.receipt r s) quiet off =
      (work_once-Keeps {obs = flag} h uplink (some ec) r).same s ∙ off
  step-off (Step.telemetry content s) quiet off = push-off content s ∙ off
  step-off (Step.saving st s) quiet off = (save-Keeps {obs = flag} h st).same s ∙ off
  step-off (Step.locking b s) quiet off = off

  run-off :
      {s t : Daemon W} (run : Reaches h uplink ec s t)
      → run_asks run ≡ false
      → flag s.statics ≡ false
      → flag t.statics ≡ false
  run-off Reaches.here quiet off = off
  run-off (Reaches.further run last) quiet off =
      let (before, now) : (run_asks run ≡ false) × (step_asks last ≡ false) = ground arith in
      step-off last now (run-off run before off)

  -- Once a request to turn telemetry off has been answered with the notice that it is off, and
  -- whatever requests, events, receipts, messages and saves have then taken turns, as long as no
  -- request asked to turn it on: the worker reads no register and sends nothing, whatever it receives.
  pub opted_out_worker_is_silent :
      (dev : Option EcDevice) (received : List Received) (s : Daemon W) {t : Daemon W}
      (run : Reaches h uplink ec (do_work h ec (turn_off h ec) s).1 t)
      → (do_work h ec (turn_off h ec) s).0 ≡ ok IpcResponse.telemetry_disabled_info
      → run_asks run ≡ false
      → worker_loop h uplink dev received t ≡ (ok tt, t)
  opted_out_worker_is_silent dev received s {t} run notice quiet =
      disabled_worker_is_silent h uplink dev received t
        (run-off run quiet (notice_is_off h ec s notice))
