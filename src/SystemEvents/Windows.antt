-- ===== src/SystemEvents/Windows.antt =====
-- The Windows service: daemon/src/services/win_service.rs, `my_service_main` and the control handler
-- that it registers, taking turns. The service manager calls the handler; which of the main thread's
-- calls succeed is an input of its turns.
pub mod Stops
use lecoo_control_center.Base.{
  ℕ, zero, suc, ◌≡◌, Bool, true, false, Option, none, some, List, [], ◌∷◌, ◌++◌, ◌==◌,
  if◌then◌else◌,
}
use lecoo_control_center.Service.{InternalEvent}

-- `PowerEventParam`, with what `GetSystemPowerStatus` then gives of the line: `none` if it fails.
pub data PowerEventParam : Type 0 where
  power_status_change : Option ℕ → PowerEventParam
  suspend resume_automatic resume_suspend other : PowerEventParam

pub data ServiceControl : Type 0 where
  stop shutdown interrogate other_control : ServiceControl
  power_event : PowerEventParam → ServiceControl

pub data ServiceControlHandlerResult : Type 0 where
  no_error not_implemented : ServiceControlHandlerResult

abbrev pub line_event : ℕ → InternalEvent
line_event ac_line_status =
    if ac_line_status == 1
    then InternalEvent.charger_connected
    else InternalEvent.charger_disconnected

abbrev pub power_events : PowerEventParam → List InternalEvent
power_events (PowerEventParam.power_status_change none) = []
power_events (PowerEventParam.power_status_change (some ac_line_status)) =
    line_event ac_line_status ∷ []
power_events PowerEventParam.suspend = InternalEvent.system_hibernating ∷ []
power_events PowerEventParam.resume_automatic = InternalEvent.system_waking_up ∷ []
power_events PowerEventParam.resume_suspend = InternalEvent.system_waking_up ∷ []
power_events PowerEventParam.other = []

-- One control: the events sent, whether the main thread is told to stop, and the result.
unfoldable pub on_control : ServiceControl → List InternalEvent × Bool × ServiceControlHandlerResult
on_control ServiceControl.stop =
    (InternalEvent.system_shutting_down ∷ [], true, ServiceControlHandlerResult.no_error)
on_control ServiceControl.shutdown =
    (InternalEvent.system_shutting_down ∷ [], true, ServiceControlHandlerResult.no_error)
on_control ServiceControl.interrogate = ([], false, ServiceControlHandlerResult.no_error)
on_control (ServiceControl.power_event param) =
    (power_events param, false, ServiceControlHandlerResult.no_error)
on_control ServiceControl.other_control = ([], false, ServiceControlHandlerResult.not_implemented)

pub data ServiceState : Type 0 where
  running stopped : ServiceState

pub data ServiceControlAccept : Type 0 where
  stop power_event shutdown : ServiceControlAccept

-- What is told to the service manager: the fields that change.
pub record ServiceStatus : Type 0 where
  pub current_state : ServiceState
  pub controls_accepted : List ServiceControlAccept

abbrev pub running_status : ServiceStatus
running_status = record {
  current_state = ServiceState.running;
  controls_accepted =
      ServiceControlAccept.stop ∷ ServiceControlAccept.power_event ∷ ServiceControlAccept.shutdown
      ∷ [];
}

abbrev pub stopped_status : ServiceStatus
stopped_status = record { current_state = ServiceState.stopped; controls_accepted = [] }

-- Where the main thread stands: the call that it makes next, or its end.
pub data Position : Type 0 where
  registering reporting announcing waiting cleaning ended unwound : Position

pub record WinService : Type 0 where
  pub position : Position
  pub registered : Bool
  pub status : Option ServiceStatus
  -- The events sent to the daemon, the latest first, and those that the channel refused.
  pub events : List InternalEvent
  pub refused : List InternalEvent
  -- How many messages to stop are in their channel.
  pub stops : ℕ

abbrev pub new_service : WinService
new_service = record {
  position = Position.registering;
  registered = false;
  status = none;
  events = [];
  refused = [];
  stops = 0;
}

-- The handler on one control; whether the channel takes what `let _ = tx.send(..)` sends on it.
unfoldable pub handle_control : Bool → ServiceControl → WinService → WinService
handle_control taken control s =
    let (events, stops, result) = on_control control in
    record s {
      events = if taken then events ++ s.events else s.events;
      refused = if taken then s.refused else events ++ s.refused;
      stops = if stops then suc s.stops else s.stops;
    }

abbrev pub unwind : WinService → WinService
unwind s = record s { position = Position.unwound }

-- `rx_to_stop.recv()` waits while there is no message: the handler keeps the other end.
abbrev pub await_stop : ℕ → WinService → WinService
await_stop zero s = s
await_stop (suc stops) s = record s { position = Position.cleaning; stops = stops }

-- The main thread's next call, which succeeds or not: a failed one is unwrapped.
abbrev pub turn : Position → Bool → WinService → WinService
turn Position.registering true s = record s { position = Position.reporting; registered = true }
turn Position.registering false s = unwind s
turn Position.reporting true s = record s {
  position = Position.announcing;
  status = some running_status;
}
turn Position.reporting false s = unwind s
turn Position.announcing true s = record s {
  position = Position.waiting;
  events = InternalEvent.inited ∷ s.events;
}
turn Position.announcing false s = unwind s
turn Position.waiting succeeds s = await_stop s.stops s
turn Position.cleaning true s = record s { position = Position.ended; status = some stopped_status }
turn Position.cleaning false s = unwind s
turn Position.ended succeeds s = s
turn Position.unwound succeeds s = s

unfoldable pub my_service_main : Bool → WinService → WinService
my_service_main succeeds s = turn s.position succeeds s

-- One turn: the handler runs only once it is registered.
pub data Turn : WinService → WinService → Type 0 where
  control :
      (taken : Bool) (c : ServiceControl) (s : WinService)
      → s.registered ≡ true
      → Turn s (handle_control taken c s)
  main : (succeeds : Bool) (s : WinService) → Turn s (my_service_main succeeds s)

pub data Runs : WinService → Type 0 where
  starts : Runs new_service
  turns : {s t : WinService} → Runs s → Turn s t → Runs t
