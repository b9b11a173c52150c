-- ===== src/SystemEvents/Windows/Stops.antt =====
-- The Windows service stops when it is told to, and only then.
use lecoo_control_center.Base.{
  if◌then◌else◌, ℕ, zero, suc, ◌≡◌, refl, Bool, true, false, not, ◌&&◌, ◌||◌, ◌==◌, Option, none,
  some, List, [], ◌∷◌, arith,
}
use lecoo_control_center.Service.{InternalEvent}
use lecoo_control_center.SystemEvents.Windows.{
  PowerEventParam, ServiceControl, ServiceControlHandlerResult, ServiceState, ServiceStatus,
  Position, WinService, Turn, Runs, on_control, handle_control, my_service_main, turn, line_event,
}

abbrev is_shutdown : InternalEvent → Bool
is_shutdown InternalEvent.system_shutting_down = true
is_shutdown other = false

abbrev is_inited : InternalEvent → Bool
is_inited InternalEvent.inited = true
is_inited other = false

abbrev any : (InternalEvent → Bool) → List InternalEvent → Bool
any p [] = false
any p (e ∷ es) = p e || any p es

-- Whether the daemon has been sent the end of the system, and that the service is there.
abbrev pub asked : WinService → Bool
asked s = any is_shutdown s.events

abbrev pub announced : WinService → Bool
announced s = any is_inited s.events

abbrev state_is : ServiceState → Option ServiceStatus → Bool
state_is state none = false
state_is ServiceState.running (some status) = elim status.current_state [
  | ServiceState.running ↦ true
  | _ ↦ false
]
state_is ServiceState.stopped (some status) = elim status.current_state [
  | ServiceState.stopped ↦ true
  | _ ↦ false
]

abbrev pub is_stopped : WinService → Bool
is_stopped s = state_is ServiceState.stopped s.status

abbrev pub is_unwound : WinService → Bool
is_unwound s = elim s.position [ Position.unwound ↦ true | _ ↦ false ]

-- Whether the channel refused to tell it of the end of the system.
abbrev pub asked_in_vain : WinService → Bool
asked_in_vain s = any is_shutdown s.refused

-- What each position of the main thread says of the rest.
abbrev phase : Position → Bool → Bool → Bool → Bool → Bool
phase Position.registering registered stopped announced asked = not registered && not stopped
phase Position.reporting registered stopped announced asked = not stopped
phase Position.announcing registered stopped announced asked = not stopped
phase Position.waiting registered stopped announced asked = not stopped && announced
phase Position.cleaning registered stopped announced asked = not stopped && (announced && asked)
phase Position.ended registered stopped announced asked = stopped && (announced && asked)
phase Position.unwound registered stopped announced asked = not stopped

abbrev IsSound : WinService → Type 0
IsSound s =
    (phase s.position s.registered (is_stopped s) (announced s) (asked s || asked_in_vain s) ≡ true)
    × ((s.stops == 0) || (asked s || asked_in_vain s) ≡ true)

abbrev service :
    Position
    → Bool
    → Option ServiceStatus
    → List InternalEvent
    → List InternalEvent
    → ℕ
    → WinService
service position registered status events refused stops = record {
  position = position;
  registered = registered;
  status = status;
  events = events;
  refused = refused;
  stops = stops;
}

turn-IsSound :
    (p : Position) (succeeds registered : Bool) (status : Option ServiceStatus)
    (events refused : List InternalEvent) (stops : ℕ)
    → IsSound (service p registered status events refused stops)
    → IsSound (turn p succeeds (service p registered status events refused stops))
turn-IsSound Position.registering true r st es rs n i = ground arith
turn-IsSound Position.registering false r st es rs n i = ground arith
turn-IsSound Position.reporting true r st es rs n i = ground arith
turn-IsSound Position.reporting false r st es rs n i = ground arith
turn-IsSound Position.announcing true r st es rs n i = ground arith
turn-IsSound Position.announcing false r st es rs n i = ground arith
turn-IsSound Position.waiting b r st es rs zero i = i
turn-IsSound Position.waiting b r st es rs (suc n) i = ground arith
turn-IsSound Position.cleaning true r st es rs n i = ground arith
turn-IsSound Position.cleaning false r st es rs n i = ground arith
turn-IsSound Position.ended b r st es rs n i = i
turn-IsSound Position.unwound b r st es rs n i = i

main-IsSound : (succeeds : Bool) (s : WinService) → IsSound s → IsSound (my_service_main succeeds s)
unfolding my_service_main
main-IsSound succeeds s i =
    turn-IsSound s.position succeeds s.registered s.status s.events s.refused s.stops i

-- A position says no more against more that has been sent or refused.
phase-sent :
    (p : Position) (r stopped announced asked lost x y : Bool)
    → phase p r stopped announced (asked || lost) ≡ true
    → phase p r stopped (x || announced) ((y || asked) || lost) ≡ true
phase-sent Position.registering r st a k l x y i = i
phase-sent Position.reporting r st a k l x y i = i
phase-sent Position.announcing r st a k l x y i = i
phase-sent Position.waiting r st a k l x y i = ground arith
phase-sent Position.cleaning r st a k l x y i = ground arith
phase-sent Position.ended r st a k l x y i = ground arith
phase-sent Position.unwound r st a k l x y i = i

phase-refused :
    (p : Position) (r stopped announced asked lost y : Bool)
    → phase p r stopped announced (asked || lost) ≡ true
    → phase p r stopped announced (asked || (y || lost)) ≡ true
phase-refused Position.registering r st a k l y i = i
phase-refused Position.reporting r st a k l y i = i
phase-refused Position.announcing r st a k l y i = i
phase-refused Position.waiting r st a k l y i = ground arith
phase-refused Position.cleaning r st a k l y i = ground arith
phase-refused Position.ended r st a k l y i = ground arith
phase-refused Position.unwound r st a k l y i = i

-- One event is sent, and the channel takes it or not.
abbrev after_send : Bool → InternalEvent → ℕ → WinService → WinService
after_send taken e stops s = record s {
  events = if taken then e ∷ s.events else s.events;
  refused = if taken then s.refused else e ∷ s.refused;
  stops = stops;
}

sent-IsSound :
    (taken : Bool) (e : InternalEvent) (s : WinService)
    → IsSound s
    → IsSound (after_send taken e s.stops s)
sent-IsSound true e s i = (
  phase-sent s.position s.registered (is_stopped s) (announced s) (asked s) (asked_in_vain s)
      (is_inited e) (is_shutdown e) i.0,
  ground arith,
)
sent-IsSound false e s i = (
  phase-refused s.position s.registered (is_stopped s) (announced s) (asked s) (asked_in_vain s)
      (is_shutdown e) i.0,
  ground arith,
)

-- `Stop` and `Shutdown`
stopped-IsSound :
    (taken : Bool) (s : WinService)
    → IsSound s
    → IsSound (after_send taken InternalEvent.system_shutting_down (suc s.stops) s)
stopped-IsSound true s i =
    ((sent-IsSound true InternalEvent.system_shutting_down s i).0, ground arith)
stopped-IsSound false s i =
    ((sent-IsSound false InternalEvent.system_shutting_down s i).0, ground arith)

-- Nothing is sent.
still-IsSound :
    (taken : Bool) (s : WinService)
    → IsSound s
    → IsSound (record s {
      events = if taken then s.events else s.events;
      refused = if taken then s.refused else s.refused;
    })
still-IsSound true s i = i
still-IsSound false s i = i

control-IsSound :
    (b : Bool) (c : ServiceControl) (s : WinService) → IsSound s → IsSound (handle_control b c s)
unfolding handle_control on_control
control-IsSound b ServiceControl.stop s i = stopped-IsSound b s i
control-IsSound b ServiceControl.shutdown s i = stopped-IsSound b s i
control-IsSound b ServiceControl.interrogate s i = still-IsSound b s i
control-IsSound b ServiceControl.other_control s i = still-IsSound b s i
control-IsSound b (ServiceControl.power_event PowerEventParam.suspend) s i =
    sent-IsSound b InternalEvent.system_hibernating s i
control-IsSound b (ServiceControl.power_event PowerEventParam.resume_automatic) s i =
    sent-IsSound b InternalEvent.system_waking_up s i
control-IsSound b (ServiceControl.power_event PowerEventParam.resume_suspend) s i =
    sent-IsSound b InternalEvent.system_waking_up s i
control-IsSound b (ServiceControl.power_event PowerEventParam.other) s i = still-IsSound b s i
control-IsSound b (ServiceControl.power_event (PowerEventParam.power_status_change none)) s i =
    still-IsSound b s i
control-IsSound b (ServiceControl.power_event (PowerEventParam.power_status_change (some l))) s i =
    sent-IsSound b (line_event l) s i

Runs-IsSound : {s : WinService} → Runs s → IsSound s
Runs-IsSound Runs.starts = (refl, refl)
Runs-IsSound (Runs.turns r (Turn.control b c s e)) = control-IsSound b c s (Runs-IsSound r)
Runs-IsSound (Runs.turns r (Turn.main b s)) = main-IsSound b s (Runs-IsSound r)

ended :
    (p : Position) (r stopped announced asked : Bool)
    → phase p r stopped announced asked ≡ true
    → stopped ≡ true
    → (announced ≡ true) × (asked ≡ true)
ended Position.registering r st a k i e = ground arith
ended Position.reporting r st a k i e = ground arith
ended Position.announcing r st a k i e = ground arith
ended Position.waiting r st a k i e = ground arith
ended Position.cleaning r st a k i e = ground arith
ended Position.ended r st a k i e = ground arith
ended Position.unwound r st a k i e = ground arith

-- However the service manager's controls and the main thread's calls take turns, whichever calls
-- fail, and whatever the daemon's channel refuses: a service that reports itself stopped has told the
-- daemon that it is there, and has told it that the system shuts down, or the channel refused that.
pub stopped_was_asked :
    {s : WinService}
    → Runs s
    → is_stopped s ≡ true
    → (announced s ≡ true) × ((asked s || asked_in_vain s) ≡ true)
stopped_was_asked {s} r e =
    ended s.position s.registered (is_stopped s) (announced s) (asked s || asked_in_vain s)
      (Runs-IsSound r).0 e

-- The calls that the main thread still has to make, at most.
abbrev pub finish : WinService → WinService
finish s =
    my_service_main true (my_service_main true (my_service_main true (my_service_main true s)))

finish-stops :
    (p : Position) (registered : Bool) (status : Option ServiceStatus)
    (events refused : List InternalEvent) (stops : ℕ)
    → registered ≡ true
    → is_unwound (service p registered status events refused stops) ≡ false
    → IsSound (service p registered status events refused stops)
    → is_stopped (finish (service p registered status events refused (suc stops))) ≡ true
unfolding my_service_main
finish-stops Position.registering r st es rs n reg up i = ground arith
finish-stops Position.reporting r st es rs n reg up i = refl
finish-stops Position.announcing r st es rs n reg up i = refl
finish-stops Position.waiting r st es rs n reg up i = refl
finish-stops Position.cleaning r st es rs n reg up i = refl
finish-stops Position.ended r st es rs n reg up i = ground arith
finish-stops Position.unwound r st es rs n reg up i = ground arith

-- The control is answered without an error, and the main thread then comes to its end.
abbrev pub StopsAfter : Bool → ServiceControl → WinService → Type 0
StopsAfter taken c s =
    ((on_control c).2 ≡ ServiceControlHandlerResult.no_error)
    × (is_stopped (finish (handle_control taken c s)) ≡ true)

-- However controls and calls have taken turns, once the handler is registered and where no call of
-- the main thread has failed: a control to stop or to shut down is answered without an error, and if
-- the main thread's next calls succeed, four of its turns are enough for the service to report
-- itself stopped, whether or not the daemon's channel takes the event that the control sends.
pub stop_is_obeyed :
    {s : WinService} (taken : Bool)
    → Runs s
    → s.registered ≡ true
    → is_unwound s ≡ false
    → StopsAfter taken ServiceControl.stop s × StopsAfter taken ServiceControl.shutdown s
unfolding handle_control on_control
stop_is_obeyed {s} taken r reg up =
    let e = InternalEvent.system_shutting_down in
    let sound = sent-IsSound taken e s (Runs-IsSound r) in
    let stops =
      finish-stops s.position s.registered s.status (after_send taken e s.stops s).events
        (after_send taken e s.stops s).refused s.stops reg up sound in
    ((refl, stops), (refl, stops))
