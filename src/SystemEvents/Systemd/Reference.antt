-- ===== src/SystemEvents/Systemd/Reference.antt =====
-- The listener's threads as filters.
use lecoo_control_center.Base.{
  ◌≡◌, refl, sym, ap, ◌&&◌, Bool, true, false, Option, none, some, List, [], ◌∷◌, if◌then◌else◌,
  arith,
}
use lecoo_control_center.Base.Lists.{take}
use lecoo_control_center.Service.{InternalEvent}
use lecoo_control_center.SystemEvents.Systemd.{
  JobNew, is_sleep_unit, is_start, sleep_event, systemd_jobs, logind_sleep, upower_monitor,
  shutdown_loop, Bus, on_signals, run_as_service,
}

-- What each signal stands for, if anything.
abbrev pub job_event : Option JobNew → Option InternalEvent
job_event none = none
job_event (some args) =
    if is_sleep_unit args.unit
    then (if is_start args.job_type then some (sleep_event args.unit) else none)
    else none

abbrev pub wake_event : Option Bool → Option InternalEvent
wake_event none = none
wake_event (some start) = if start then none else some InternalEvent.system_waking_up

abbrev pub power_event : Option Bool → Option InternalEvent
power_event none = none
power_event (some true) = some InternalEvent.charger_disconnected
power_event (some false) = some InternalEvent.charger_connected

abbrev pub shutdown_event : Option Bool → Option InternalEvent
shutdown_event none = none
shutdown_event (some start) = if start then some InternalEvent.system_shutting_down else none

abbrev pub put : Option InternalEvent → List InternalEvent → List InternalEvent
put none events = events
put (some event) events = event ∷ events

abbrev pub events_of : {A : Type 0} → (A → Option InternalEvent) → List A → List InternalEvent
events_of f [] = []
events_of f (signal ∷ signals) = put (f signal) (events_of f signals)

module _ (is_open : List InternalEvent → Bool) where
  -- The events that a channel takes, one after another, until it refuses one.
  abbrev pub taken : List InternalEvent → List InternalEvent → List InternalEvent
  taken [] sent = sent
  taken (event ∷ events) sent =
      let more = taken events (event ∷ sent) in if is_open sent then more else sent

  jobs_taken :
      (signals : List (Option JobNew)) (sent : List InternalEvent)
      → systemd_jobs is_open signals sent ≡ taken (events_of job_event signals) sent
  unfolding systemd_jobs
  jobs_taken [] sent = refl
  jobs_taken (none ∷ signals) sent = jobs_taken signals sent
  jobs_taken (some args ∷ signals) sent =
      let skipped = jobs_taken signals sent in
      let sends = jobs_taken signals (sleep_event args.unit ∷ sent) in ground arith

  sleep_taken :
      (signals : List (Option Bool)) (sent : List InternalEvent)
      → logind_sleep is_open signals sent ≡ taken (events_of wake_event signals) sent
  unfolding logind_sleep
  sleep_taken [] sent = refl
  sleep_taken (none ∷ signals) sent = sleep_taken signals sent
  sleep_taken (some true ∷ signals) sent = sleep_taken signals sent
  sleep_taken (some false ∷ signals) sent = simp (sleep_taken signals)

  power_taken :
      (signals : List (Option Bool)) (sent : List InternalEvent)
      → upower_monitor is_open signals sent ≡ taken (events_of power_event signals) sent
  unfolding upower_monitor
  power_taken [] sent = refl
  power_taken (none ∷ signals) sent = power_taken signals sent
  power_taken (some true ∷ signals) sent = simp (power_taken signals)
  power_taken (some false ∷ signals) sent = simp (power_taken signals)

  shutdown_taken :
      (signals : List (Option Bool)) (sent : List InternalEvent)
      → shutdown_loop is_open signals sent ≡ taken (take 1 (events_of shutdown_event signals)) sent
  unfolding shutdown_loop
  shutdown_taken [] sent = refl
  shutdown_taken (none ∷ signals) sent = shutdown_taken signals sent
  shutdown_taken (some false ∷ signals) sent = shutdown_taken signals sent
  shutdown_taken (some true ∷ signals) sent = ground arith

  -- Each thread of the listener sends exactly the events that its signals stand for, in their order,
  -- until the channel refuses one, and the last loop only the first of them; a job's signal stands
  -- for an event if its unit is a sleep unit and the job is a start or cannot be asked.
  pub threads_send_events :
      (jobs : List (Option JobNew)) (signals : List (Option Bool)) (sent : List InternalEvent)
      → (systemd_jobs is_open jobs sent ≡ taken (events_of job_event jobs) sent)
        × (logind_sleep is_open signals sent ≡ taken (events_of wake_event signals) sent)
        × (upower_monitor is_open signals sent ≡ taken (events_of power_event signals) sent)
        × (shutdown_loop is_open signals sent
            ≡ taken (take 1 (events_of shutdown_event signals)) sent)
  threads_send_events jobs signals sent = (
    jobs_taken jobs sent,
    sleep_taken signals sent,
    power_taken signals sent,
    shutdown_taken signals sent,
  )

-- The signals that a thread hears: those of its stream, where all that comes before was had.
abbrev pub heard : {A : Type 0} → Bool → Option (List A) → List A
heard false signals = []
heard true none = []
heard true (some signals) = signals

module _ (is_open : List InternalEvent → Bool) where
  -- A thread that sends what its stream's signals stand for does so of what it hears.
  stream_heard :
      {A : Type 0} (loop : List A → List InternalEvent → List InternalEvent)
      (events : List A → List InternalEvent)
      → ((signals : List A) → loop signals [] ≡ taken is_open (events signals) [])
      → events [] ≡ []
      → (stream : Option (List A))
      → on_signals is_open stream loop ≡ taken is_open (events (heard true stream)) []
  stream_heard loop events sends none_of none = ap (λ es. taken is_open es []) (sym none_of)
  stream_heard loop events sends none_of (some signals) = sends signals

  -- Whatever the calls on the system bus give: each thread of the listener sends exactly the events
  -- that the signals it hears stand for, in their order, until the channel refuses one, and the
  -- function's own loop only the first of them. A thread hears nothing where the connection, its
  -- proxy, its subscription or its stream is not had, and the others go on without it. A job's signal
  -- stands for an event if its unit is a sleep unit and the job is a start or cannot be asked.
  pub run_as_service_sends :
      (bus : Bus)
      → let listened = run_as_service is_open bus in
        let jobs = heard (bus.system && bus.manager && bus.subscribed) bus.job_new in
        let sleeps = heard (bus.system && bus.sleep_manager) bus.prepare_for_sleep in
        let powers = heard (bus.system && bus.upower) (some bus.on_battery_changed) in
        let shutdowns = heard (bus.system && bus.shutdown_manager) bus.prepare_for_shutdown in
        (listened.jobs ≡ taken is_open (events_of job_event jobs) [])
        × (listened.sleeps ≡ taken is_open (events_of wake_event sleeps) [])
        × (listened.powers ≡ taken is_open (events_of power_event powers) [])
        × (listened.shutdowns ≡ taken is_open (take 1 (events_of shutdown_event shutdowns)) [])
  unfolding run_as_service
  run_as_service_sends bus =
      let sent = threads_send_events is_open in
      let jobs =
        stream_heard (systemd_jobs is_open) (events_of job_event)
          (λ signals. (sent signals [] []).0) refl bus.job_new in
      let sleeps =
        stream_heard (logind_sleep is_open) (events_of wake_event)
          (λ signals. (sent [] signals []).1) refl bus.prepare_for_sleep in
      let powers = (sent [] bus.on_battery_changed []).2 in
      let shutdowns =
        stream_heard (shutdown_loop is_open) (λ signals. take 1 (events_of shutdown_event signals))
          (λ signals. (sent [] signals []).3) refl bus.prepare_for_shutdown in
      (ground arith, ground arith, ground arith, ground arith)
