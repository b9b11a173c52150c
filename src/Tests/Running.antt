-- ===== src/Tests/Running.antt =====
-- A run of the daemon on the bench: a fan mode is set, the laptop sleeps, and the worker reports.
use lecoo_control_center.Base.{refl, none, some}
use lecoo_control_center.Base.Action.{ok}
use lecoo_control_center.State.{Daemon}
use lecoo_control_center.Ipc.Settings.{FanMode, cpu, default_settings}
use lecoo_control_center.Ipc.Message.{IpcRequest}
use lecoo_control_center.Handlers.Requests.{do_work}
use lecoo_control_center.Service.{InternalEvent, on_event}
use lecoo_control_center.Telemetry.{Uplink, Received, work_once}
use lecoo_control_center.Running.{Step, Reaches}
use lecoo_control_center.Running.Safe.{IsSettled, running_stays_IsSettled}
use lecoo_control_center.Tests.Bench.{Machine, bench, n155a, started}

abbrev uplink : Uplink Machine
uplink = record { encode = λ payload. none; post = λ bytes m. (ok tt, m) }

abbrev fan_200 : IpcRequest
fan_200 = IpcRequest.set_fan_mode cpu (FanMode.custom 200)

abbrev set : Daemon Machine
set = (do_work bench n155a fan_200 started).1

abbrev slept : Daemon Machine
slept = (on_event bench n155a InternalEvent.system_sleeping set).1

abbrev reported : Daemon Machine
reported = (work_once bench uplink (some n155a) Received.timeout slept).1

night : Reaches bench uplink n155a started reported
night =
    Reaches.further
      (Reaches.further (Reaches.further Reaches.here (Step.request fan_200 started))
        (Step.event InternalEvent.system_sleeping set))
      (Step.receipt Received.timeout slept)

running_stays_IsSettled_example : IsSettled reported.statics.settings
running_stays_IsSettled_example =
    running_stays_IsSettled bench uplink n155a night ((default_settings 7, refl), (tt, tt))
