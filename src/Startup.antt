-- ===== src/Startup.antt =====
-- The daemon's start and its watchdog: `main` of daemon/src/main.rs, up to the threads that it spawns.
-- Logging is left out.
pub mod Agrees
use lecoo_control_center.Base.{
  ℕ, Bool, true, false, Option, none, some, List, [], ◌∷◌, ◌++◌, ◌==◌, ltb, ◌&&◌, ◌||◌, not,
  if◌then◌else◌,
}
use lecoo_control_center.Base.Text.{Text, codes, text_eq, hex_byte}
use lecoo_control_center.Base.Action.{Action, pure, gets, modify, ignore, ◌>>=◌, ◌>>◌}
use lecoo_control_center.State.{Daemon, on_world}
use lecoo_control_center.Ec.Host.{Host}
use lecoo_control_center.Ec.Device.{EcDevice}
use lecoo_control_center.Ec.Probe.{new_device}
use lecoo_control_center.Ipc.Settings.{CurrentSettings}
use lecoo_control_center.Ipc.Message.{TelemetryData}
use lecoo_control_center.Hw.Getters.{read_system_info}
use lecoo_control_center.Handlers.Settings.{load_or_default, restore_state}
use lecoo_control_center.Telemetry.{init, send}

-- What the daemon is built for.
pub data Target : Type 0 where
  windows unix : Target

-- What `main` asks of the machine beside the host's calls: `services::start`, which spawns the
-- listener's thread, the wait for its first event with the pause after it, `IpcServer::bind`, and
-- `services::get_system_info`, the names of the processor, the system and the board.
pub record Boot (W : Type 0) : Type 0 where
  pub start_services : Action W (Unit {0})
  pub await_inited : Action W (Unit {0})
  pub bind : Action W (Unit {0})
  pub get_system_info : Action W (Text × Text × Text)

module _ {W : Type 0} (h : Host W) (boot : Boot W) where
  -- `IT{:02X}{:02X}-{:02X}`
  abbrev pub firmware_name : ℕ × ℕ × ℕ → Text
  firmware_name (chip_id1, chip_id2, chip_ver) =
      codes "IT" ++ (hex_byte chip_id1 ++ (hex_byte chip_id2 ++ (codes "-" ++ hex_byte chip_ver)))

  abbrev pub announce : EcDevice → Action (Daemon W) (Unit {0})
  announce ec = do
    names ← on_world boot.get_system_info
    chip ← read_system_info h ec
    send (TelemetryData.startup (firmware_name chip) ec.hram_offset names.0 names.1 names.2)

  -- `STATE.set`, whose result is dropped: settings that are there stay.
  abbrev pub or_set : CurrentSettings → Option CurrentSettings → Option CurrentSettings
  or_set daemon_state none = some daemon_state
  or_set daemon_state (some settings) = some settings

  abbrev pub set_state : CurrentSettings → Action (Daemon W) (Unit {0})
  set_state daemon_state = modify (λ s. record s {
    statics = record (s.statics) { settings = or_set daemon_state s.statics.settings };
  })

  abbrev pub start_telemetry : EcDevice → CurrentSettings → Action (Daemon W) (Unit {0})
  start_telemetry ec daemon_state = do
    init daemon_state.telemetry_enabled daemon_state.telemetry_client_id
    if daemon_state.telemetry_enabled then announce ec else pure tt

  -- `args.iter().any(|arg| arg == name)`
  abbrev pub has_arg : Text → List Text → Bool
  has_arg name [] = false
  has_arg name (arg ∷ args) = text_eq arg name || has_arg name args

  -- The listener's thread: on Windows only under the service manager, whose start is waited for.
  abbrev pub begin : Target → List Text → Action W (Unit {0})
  begin Target.windows args =
      if has_arg (codes "--service") args then boot.start_services >> boot.await_inited else pure tt
  begin Target.unix args = boot.start_services

  unfoldable pub startup : Target → List Text → Action (Daemon W) EcDevice
  startup target args = do
    on_world (begin target args)
    on_world boot.bind
    ec ← new_device h (has_arg (codes "--insecure") args)
    daemon_state ← load_or_default h
    ignore (restore_state h ec daemon_state)
    start_telemetry ec daemon_state
    set_state daemon_state
    pure ec

-- One second of the watchdog: the age of the lock and the age last warned of; whether it warns, and
-- the age that it then keeps.
unfoldable pub watch : ℕ → ℕ → Bool × ℕ
watch age last_warned_ms =
    let warns = ltb 2000 age && not (age == last_warned_ms) in
    (warns, if age == 0 then 0 else if warns then age else last_warned_ms)
