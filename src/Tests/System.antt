-- ===== src/Tests/System.antt =====
-- The listener of system events on a night's sleep.
use lecoo_control_center.Base.{
  ◌||◌, ◌≡◌, refl, true, false, none, Option, some, Bool, List, [], ◌∷◌,
}
use lecoo_control_center.Base.Lists.{take}
use lecoo_control_center.Base.Text.{codes}
use lecoo_control_center.Service.{InternalEvent}
use lecoo_control_center.SystemEvents.PanicHook.{Payload, panic_text}
use lecoo_control_center.SystemEvents.Windows.{
  ServiceControl, PowerEventParam, WinService, Turn, Runs, new_service, handle_control,
  my_service_main, on_control,
}
use lecoo_control_center.SystemEvents.Windows.Stops.{
  announced, asked, asked_in_vain, StopsAfter, stopped_was_asked, stop_is_obeyed,
}
use lecoo_control_center.SystemEvents.Systemd.{JobNew, Bus, systemd_jobs, run_as_service}
use lecoo_control_center.SystemEvents.Systemd.Reference.{
  job_event, wake_event, power_event, shutdown_event, events_of, taken, heard, run_as_service_sends,
}

-- A channel that takes one event and then is closed.
abbrev one_taken : List InternalEvent → Bool
one_taken [] = true
one_taken (e ∷ es) = false

abbrev jobs : List (Option JobNew)
jobs =
    some (record { unit = codes "cron.service"; job_type = some (some (codes "start")) })
    ∷ some (record { unit = codes "suspend.target"; job_type = some (some (codes "start")) })
    ∷ none
    ∷ some (record { unit = codes "hibernate.target"; job_type = none })
    ∷ []

abbrev signals : List (Option Bool)
signals = some true ∷ none ∷ some false ∷ some true ∷ []

-- A bus on which UPower is missing.
abbrev bus : Bus
bus = record {
  system = true;
  manager = true;
  subscribed = true;
  job_new = some jobs;
  sleep_manager = true;
  prepare_for_sleep = some signals;
  upower = false;
  on_battery_changed = [];
  shutdown_manager = true;
  prepare_for_shutdown = none;
}

run_as_service_sends_example :
    let listened = run_as_service one_taken bus in
    (listened.jobs ≡ taken one_taken (events_of job_event (heard true (some jobs))) [])
    × (listened.sleeps ≡ taken one_taken (events_of wake_event (heard true (some signals))) [])
    × (listened.powers ≡ taken one_taken (events_of power_event (heard false (some []))) [])
    × (listened.shutdowns
        ≡ taken one_taken (take 1 (events_of shutdown_event (heard true none))) [])
run_as_service_sends_example = run_as_service_sends one_taken bus

jobs_sent : systemd_jobs one_taken jobs [] ≡ InternalEvent.system_sleeping ∷ []
unfolding systemd_jobs
jobs_sent = refl

todo_panics :
    panic_text
      (record { file = codes "daemon/src/handlers.rs"; line = 126 })
      (Payload.static_str (codes "not yet implemented"))
    ≡ codes "CRITICAL PANIC in file 'daemon/src/handlers.rs' at line 126: not yet implemented"
unfolding lecoo_control_center.Base.Text.decimal
todo_panics = refl

-- A Windows service that is registered before a suspension comes, and then starts.
abbrev up : WinService
up = my_service_main true (
    my_service_main true (
      handle_control true (ServiceControl.power_event PowerEventParam.suspend)
        (my_service_main true new_service)))

up-Runs : Runs up
unfolding my_service_main handle_control
up-Runs =
    Runs.turns
      (Runs.turns
        (Runs.turns (Runs.turns Runs.starts (Turn.main true new_service))
          (Turn.control true (ServiceControl.power_event PowerEventParam.suspend) _ refl))
        (Turn.main true _))
      (Turn.main true _)

-- It is stopped while the daemon no longer listens.
abbrev down : WinService
down = my_service_main true (my_service_main true (handle_control false ServiceControl.stop up))

down-Runs : Runs down
unfolding my_service_main handle_control
down-Runs =
    Runs.turns
      (Runs.turns (Runs.turns up-Runs (Turn.control false ServiceControl.stop up refl))
        (Turn.main true _))
      (Turn.main true _)

stopped_was_asked_example : (announced down ≡ true) × ((asked down || asked_in_vain down) ≡ true)
unfolding my_service_main handle_control on_control
stopped_was_asked_example = stopped_was_asked down-Runs refl

stop_is_obeyed_example :
    StopsAfter true ServiceControl.stop up × StopsAfter true ServiceControl.shutdown up
unfolding my_service_main handle_control on_control
stop_is_obeyed_example = stop_is_obeyed true up-Runs refl refl
