-- ===== src/SystemEvents/Systemd.antt =====
-- The threads of the Linux listener: daemon/src/services/systemd_service.rs. A thread's signals are a
-- list; `send` tells of each event whether the channel takes it.
pub mod Reference
use lecoo_control_center.Base.{
  Bool, true, false, not, ◌||◌, Option, none, some, List, [], ◌∷◌, if◌then◌else◌,
}
use lecoo_control_center.Base.Text.{Text, codes, text_eq}
use lecoo_control_center.Service.{InternalEvent}

-- A signal of a new job: its arguments if they can be read, with what the job's proxy says: `none` if
-- it cannot be built, else its type or an error.
pub record JobNew : Type 0 where
  pub unit : Text
  pub job_type : Option (Option Text)

-- What the calls on the system bus give: whether the connection and the proxies are made and the
-- manager's signals subscribed to, and the streams of signals, `none` for one that cannot be had.
pub record Bus : Type 0 where
  pub system : Bool
  pub manager : Bool
  pub subscribed : Bool
  pub job_new : Option (List (Option JobNew))
  pub sleep_manager : Bool
  pub prepare_for_sleep : Option (List (Option Bool))
  pub upower : Bool
  pub on_battery_changed : List (Option Bool)
  pub shutdown_manager : Bool
  pub prepare_for_shutdown : Option (List (Option Bool))

-- The events that each thread has sent, the latest first, and whether `run_as_service` returns with
-- no error.
pub record Listened : Type 0 where
  pub jobs : List InternalEvent
  pub sleeps : List InternalEvent
  pub powers : List InternalEvent
  pub shutdowns : List InternalEvent
  pub succeeded : Bool

abbrev pub is_sleep_unit : Text → Bool
is_sleep_unit unit =
    text_eq unit (codes "suspend.target")
    || (text_eq unit (codes "hibernate.target")
        || (text_eq unit (codes "hybrid-sleep.target")
            || text_eq unit (codes "suspend-then-hibernate.target")))

-- Whether the event is sent: a job that starts, or one whose proxy cannot be built.
abbrev pub is_start : Option (Option Text) → Bool
is_start none = true
is_start (some none) = false
is_start (some (some job_type)) = text_eq job_type (codes "start")

abbrev pub sleep_event : Text → InternalEvent
sleep_event unit =
    if text_eq unit (codes "suspend.target")
    then InternalEvent.system_sleeping
    else InternalEvent.system_hibernating

-- What the channel has taken of the events of a thread, whose receiver is gone after so many of them:
-- the loops below give the events that they send, one after another, until a send fails.
module _ (is_open : List InternalEvent → Bool) where
  -- `tx.send(event)`: the loop goes on if the channel took it.
  abbrev pub sent_then :
      List InternalEvent
      → InternalEvent
      → (List InternalEvent → List InternalEvent)
      → List InternalEvent
  sent_then sent event later = if is_open sent then later (event ∷ sent) else sent

  unfoldable pub systemd_jobs : List (Option JobNew) → List InternalEvent → List InternalEvent
  systemd_jobs [] sent = sent
  systemd_jobs (none ∷ signals) sent = systemd_jobs signals sent
  systemd_jobs (some args ∷ signals) sent =
      let skipped = systemd_jobs signals sent in
      if not (is_sleep_unit args.unit)
      then skipped
      else if not (is_start args.job_type)
      then skipped
      else sent_then sent (sleep_event args.unit) (systemd_jobs signals)

  -- The signals hold `start`, if their arguments can be read.
  unfoldable pub logind_sleep : List (Option Bool) → List InternalEvent → List InternalEvent
  logind_sleep [] sent = sent
  logind_sleep (none ∷ signals) sent = logind_sleep signals sent
  logind_sleep (some true ∷ signals) sent = logind_sleep signals sent
  logind_sleep (some false ∷ signals) sent =
      sent_then sent InternalEvent.system_waking_up (logind_sleep signals)

  abbrev pub charger_event : Bool → InternalEvent
  charger_event true = InternalEvent.charger_disconnected
  charger_event false = InternalEvent.charger_connected

  unfoldable pub upower_monitor : List (Option Bool) → List InternalEvent → List InternalEvent
  upower_monitor [] sent = sent
  upower_monitor (none ∷ signals) sent = upower_monitor signals sent
  upower_monitor (some on_battery ∷ signals) sent =
      sent_then sent (charger_event on_battery) (upower_monitor signals)

  -- The last loop of `run_as_service`: it breaks after one event, whether or not it was taken.
  unfoldable pub shutdown_loop : List (Option Bool) → List InternalEvent → List InternalEvent
  shutdown_loop [] sent = sent
  shutdown_loop (none ∷ signals) sent = shutdown_loop signals sent
  shutdown_loop (some false ∷ signals) sent = shutdown_loop signals sent
  shutdown_loop (some true ∷ signals) sent =
      sent_then sent InternalEvent.system_shutting_down (λ taken. taken)

  -- `let … = match … { Ok(…) => …, Err(_) => return }` before a loop on the signals.
  abbrev pub on_signals :
      {A : Type 0}
      → Option (List A)
      → (List A → List InternalEvent → List InternalEvent)
      → List InternalEvent
  on_signals none loop = []
  on_signals (some signals) loop = loop signals []

  abbrev pub jobs_thread : Bus → List InternalEvent
  jobs_thread bus =
      if bus.manager
      then (if bus.subscribed then on_signals bus.job_new systemd_jobs else [])
      else []

  abbrev pub sleep_thread : Bus → List InternalEvent
  sleep_thread bus = if bus.sleep_manager then on_signals bus.prepare_for_sleep logind_sleep else []

  abbrev pub power_thread : Bus → List InternalEvent
  power_thread bus = if bus.upower then upower_monitor bus.on_battery_changed [] else []

  -- The end of `run_as_service`, whose errors are the function's.
  abbrev pub after_threads : Bus → List InternalEvent × Bool
  after_threads bus =
      if bus.shutdown_manager
      then elim bus.prepare_for_shutdown [
        | none ↦ ([], false)
        | some signals ↦ (shutdown_loop signals [], true)
      ]
      else ([], false)

  -- Nothing is started without a connection to the system bus.
  unfoldable pub run_as_service : Bus → Listened
  run_as_service bus =
      if bus.system
      then record {
        jobs = jobs_thread bus;
        sleeps = sleep_thread bus;
        powers = power_thread bus;
        shutdowns = (after_threads bus).0;
        succeeded = (after_threads bus).1;
      }
      else record { jobs = []; sleeps = []; powers = []; shutdowns = []; succeeded = false }
