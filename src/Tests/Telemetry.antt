-- ===== src/Tests/Telemetry.antt =====
-- The telemetry worker on the bench, with a server that counts what it is sent by the clock.
use lecoo_control_center.Base.{◌≡◌, ◌+◌, refl, false, some, [], ◌∷◌}
use lecoo_control_center.Base.Action.{ok}
use lecoo_control_center.State.{Daemon}
use lecoo_control_center.Ec.I2ec.{I2ec}
use lecoo_control_center.Ec.Registers.{regs}
use lecoo_control_center.Ec.Device.{ram_addr, write_ram}
use lecoo_control_center.Ipc.Settings.{PowerProfile, FanMode, cpu}
use lecoo_control_center.Ipc.Message.{DaemonCommand, IpcRequest, TelemetryData}
use lecoo_control_center.Handlers.Requests.{do_work}
use lecoo_control_center.Telemetry.{Uplink, Received, work_once, worker_loop}
use lecoo_control_center.Service.{InternalEvent, on_event}
use lecoo_control_center.Running.{Step, Reaches}
use lecoo_control_center.Running.Silent.{opted_out_worker_is_silent}
use lecoo_control_center.Telemetry.Status.{timeout_sends_registers}
use lecoo_control_center.Tests.Bench.{Machine, bench, bench-IsI2ec, n155a, started}

abbrev chip : Machine → I2ec
chip m = m.chip

abbrev collector : Uplink Machine
collector = record {
  encode = λ payload. some (payload.id ∷ []);
  post = λ bytes m. (ok tt, record m { time = m.time + 1000 });
}

abbrev fan_200 : IpcRequest
fan_200 = IpcRequest.set_fan_mode cpu (FanMode.custom 200)

abbrev opted_out : Daemon Machine
opted_out =
    (do_work bench n155a (IpcRequest.daemon_command (DaemonCommand.activate_telemetry false))
      started).1

-- Then a client sets a fan, and the laptop sleeps.
abbrev later : Daemon Machine
later =
    (on_event bench n155a InternalEvent.system_sleeping (do_work bench n155a fan_200 opted_out).1).1

since : Reaches bench collector n155a opted_out later
since =
    Reaches.further (Reaches.further Reaches.here (Step.request fan_200 opted_out))
      (Step.event InternalEvent.system_sleeping (do_work bench n155a fan_200 opted_out).1)

opted_out_worker_is_silent_example :
    worker_loop bench collector
      (some n155a)
      (Received.timeout ∷ Received.message (TelemetryData.panic []) ∷ [])
      later
    ≡ (ok tt, later)
unfolding since do_work lecoo_control_center.Handlers.Requests.handle
    lecoo_control_center.Handlers.Requests.process_daemon_command
    lecoo_control_center.Handlers.Settings.get_state
    lecoo_control_center.Handlers.Settings.put_state lecoo_control_center.Handlers.Settings.save
opted_out_worker_is_silent_example =
    opted_out_worker_is_silent bench collector n155a (some n155a)
      (Received.timeout ∷ Received.message (TelemetryData.panic []) ∷ []) started since refl refl

-- A machine that runs the silent profile.
abbrev silent : Daemon Machine
silent = (write_ram bench n155a n155a.offsets.ram_power_profile 1 started).1

timeout_sends_registers_example :
    let after = (work_once bench collector (some n155a) Received.timeout silent).1 in
    (w : Machine) × (regs chip w ≡ regs chip silent.world)
    × (after.world ≡ (collector.post (7 ∷ []) w).1)
    × (after.statics ≡ silent.statics)
unfolding write_ram lecoo_control_center.Ec.Device.batch_write_reg
timeout_sends_registers_example =
    timeout_sends_registers bench collector n155a chip bench-IsI2ec PowerProfile.silent (7 ∷ [])
      silent refl refl refl
