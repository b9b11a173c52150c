-- ===== src/Running/Safe.antt =====
-- The daemon's stored settings over any run.
use lecoo_control_center.Base.{◌≡◌, refl, sym, subst, Option, none, some, inl, inr, arith}
use lecoo_control_center.State.{Daemon}
use lecoo_control_center.Ec.Host.{Host}
use lecoo_control_center.Ec.Device.{EcDevice}
use lecoo_control_center.Ipc.Settings.{CurrentSettings}
use lecoo_control_center.Ipc.Message.{TelemetryData}
use lecoo_control_center.Handlers.Frame.{save-Keeps}
use lecoo_control_center.Handlers.Stored.{stored, Moved}
use lecoo_control_center.Handlers.Moves.{do_work_moves}
use lecoo_control_center.Handlers.Safe.{IsSafe, do_work_keeps_IsSafe}
use lecoo_control_center.Hw.Fan.Limit.{IsSafeMode}
use lecoo_control_center.Service.Chosen.{all_chosen, on_event-Keeps}
use lecoo_control_center.Telemetry.{Uplink, send}
use lecoo_control_center.Telemetry.Frame.{work_once-Keeps}
use lecoo_control_center.Running.{Step, Reaches}

-- Settings are there, and both fan modes are accepted ones.
abbrev pub IsSettled : Option CurrentSettings → Type 0
IsSettled o = ((st : CurrentSettings) × (o ≡ some st)) × IsSafe o

module _ {W : Type 0} (h : Host W) (uplink : Uplink W) (ec : EcDevice) where
  unchanged : (a b : Option CurrentSettings) → b ≡ a → IsSettled a → IsSettled b
  unchanged a b e = subst IsSettled (sym e)

  moved :
      (f : CurrentSettings → CurrentSettings) (a b : Option CurrentSettings)
      → Moved f a b
      → IsSafe b
      → IsSettled a
      → IsSettled b
  moved f a b (inl e) safe i = unchanged a b e i
  moved f a b (inr (st, was, now)) safe i = ((f st, now), safe)

  as_chosen :
      (a b : Option CurrentSettings) → all_chosen b ≡ all_chosen a → IsSettled a → IsSettled b
  as_chosen none b e i = ground arith
  as_chosen (some x) none e i = ground arith
  as_chosen (some x) (some y) e i =
      let cpu : x.fan_mode_cpu ≡ y.fan_mode_cpu = ground arith in
      let gpu : x.fan_mode_gpu ≡ y.fan_mode_gpu = ground arith in
      ((y, refl), (subst IsSafeMode cpu i.1.0, subst IsSafeMode gpu i.1.1))

  push-stored :
      (content : TelemetryData) (s : Daemon W)
      → (send content s).1.statics.settings ≡ s.statics.settings
  unfolding send
  push-stored content s = ground arith

  step-IsSettled :
      {s t : Daemon W}
      → Step h uplink ec s t
      → IsSettled s.statics.settings
      → IsSettled t.statics.settings
  step-IsSettled (Step.request req s) i =
      moved _ s.statics.settings _ (do_work_moves h ec req s) (do_work_keeps_IsSafe h ec req s i.1)
        i
  step-IsSettled (Step.event e s) i =
      as_chosen s.statics.settings _ ((on_event-Keeps h ec e).same s) i
  step-IsSettled (Step.receipt r s) i =
      unchanged s.statics.settings _ ((work_once-Keeps {obs = stored} h uplink (some ec) r).same s)
        i
  step-IsSettled (Step.telemetry content s) i =
      unchanged s.statics.settings _ (push-stored content s) i
  step-IsSettled (Step.saving st s) i =
      unchanged s.statics.settings _ ((save-Keeps {obs = stored} h st).same s) i
  step-IsSettled (Step.locking b s) i = i

  -- However requests, system events, receipts of the telemetry worker and saves take turns, on any
  -- host and whoever holds the lock: from a state whose settings are set, with both fan modes accepted
  -- ones, a custom duty cycle of at most 220, every state that is reached has settings, and both of
  -- their fan modes are accepted ones.
  pub running_stays_IsSettled :
      {s t : Daemon W}
      → Reaches h uplink ec s t
      → IsSettled s.statics.settings
      → IsSettled t.statics.settings
  running_stays_IsSettled Reaches.here i = i
  running_stays_IsSettled (Reaches.further run last) i =
      step-IsSettled last (running_stays_IsSettled run i)
