-- ===== src/Telemetry/Silent.antt =====
-- A worker whose switch is off does nothing, and how the switch is turned off.
use lecoo_control_center.Base.{
  ◌≡◌, refl, Bool, true, false, Option, List, [], ◌∷◌, if◌then◌else◌, arith,
}
use lecoo_control_center.Base.Action.{Action, Outcome, ok, err, panicked, proceed, reify, ◌>>◌}
use lecoo_control_center.State.{Daemon}
use lecoo_control_center.Ec.Host.{Host}
use lecoo_control_center.Ec.Device.{EcDevice}
use lecoo_control_center.Ipc.Settings.{CurrentSettings}
use lecoo_control_center.Ipc.Message.{DaemonCommand, IpcRequest, IpcResponse}
use lecoo_control_center.Handlers.Settings.{save, get_state, put_state}
use lecoo_control_center.Handlers.Requests.{
  response_of, switch_telemetry, process_daemon_command, handle, do_work,
}
use lecoo_control_center.Telemetry.{Uplink, Received, work_once, worker_loop}

module _ {W : Type 0} (h : Host W) (uplink : Uplink W) where
  -- Whether the loop goes on after a receipt.
  goes_on : Received → Bool
  goes_on (Received.message content) = true
  goes_on Received.timeout = true
  goes_on Received.disconnected = false

  off_once :
      (ec : Option EcDevice) (r : Received) (s : Daemon W)
      → s.statics.telemetry_enabled ≡ false
      → work_once h uplink ec r s ≡ (ok (goes_on r), s)
  unfolding work_once goes_on
  off_once ec (Received.message content) s off = simp off
  off_once ec Received.timeout s off = simp off
  off_once ec Received.disconnected s off = refl

  if_either :
      (b : Bool) (m n : Action (Daemon W) (Unit {0})) (s : Daemon W)
      {x : Outcome (Unit {0}) × Daemon W}
      → m s ≡ x
      → n s ≡ x
      → (if b then m else n) s ≡ x
  if_either true m n s p q = p
  if_either false m n s p q = q

  -- With the switch off, the worker reads no register and sends nothing, whatever it receives: it
  -- ends without a panic and all is as it was.
  pub disabled_worker_is_silent :
      (ec : Option EcDevice) (received : List Received) (s : Daemon W)
      → s.statics.telemetry_enabled ≡ false
      → worker_loop h uplink ec received s ≡ (ok tt, s)
  unfolding worker_loop
  disabled_worker_is_silent ec [] s off = refl
  disabled_worker_is_silent ec (r ∷ rest) s off =
      rw (off_once ec r s off)
        (if_either (goes_on r) _ _ s (disabled_worker_is_silent ec rest s off) refl)

module _ {W : Type 0} (h : Host W) (ec : EcDevice) where
  abbrev pub turn_off : IpcRequest
  turn_off = IpcRequest.daemon_command (DaemonCommand.activate_telemetry false)

  -- A result that `do_work` answers with the notice has left the switch off.
  saved_off :
      (o : Outcome (Unit {0})) (s : Daemon W)
      → let r = proceed o (λ _. switch_telemetry h false) s in
        (proceed (reify r.0) response_of r.1).0 ≡ ok IpcResponse.telemetry_disabled_info
        → (proceed (reify r.0) response_of r.1).1.statics.telemetry_enabled ≡ false
  saved_off (ok u) s e = refl
  saved_off (err m) s e = ground arith
  saved_off panicked s e = ground arith

  held_off :
      (o : Outcome CurrentSettings) (s : Daemon W)
      → let f = λ (held : CurrentSettings).
        put_state (record held { telemetry_enabled = false })
        >> (save h (record held { telemetry_enabled = false }) >> switch_telemetry h false) in
        let r = proceed o f s in
        (proceed (reify r.0) response_of r.1).0 ≡ ok IpcResponse.telemetry_disabled_info
        → (proceed (reify r.0) response_of r.1).1.statics.telemetry_enabled ≡ false
  unfolding put_state
  held_off (ok held) s = saved_off _ _
  held_off (err m) s = λ e. ground arith
  held_off panicked s = λ e. ground arith

  -- Once a request to turn telemetry off has been answered with the notice, it is off.
  pub notice_is_off :
      (s : Daemon W)
      → (do_work h ec turn_off s).0 ≡ ok IpcResponse.telemetry_disabled_info
      → (do_work h ec turn_off s).1.statics.telemetry_enabled ≡ false
  unfolding do_work handle process_daemon_command get_state
  notice_is_off s e = held_off (get_state s).0 (get_state s).1 e
