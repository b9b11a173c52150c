-- ===== src/Lib.antt =====
-- Lecoo Control Center: a daemon that drives the embedded controller of Lecoo laptops, and its
-- clients. The daemon finds the controller behind one of three Super I/O ports, offers its
-- functions (fans, charge limit, keyboard backlight, power profile, LEDs, readings) to clients
-- over a local socket, keeps the settings in a file, and reacts to the system's events.
--
-- The parts and the files that model them:
-- - Base: shared types, tests and texts; Base/Action is a call of the program: it reads and
--   changes a state and returns, fails with an error text, or panics. What was written before
--   a failure stays. Base/Ends is what holds after a call that returns.
-- - Ipc: the data of the protocol (ipc/src/structs.rs, ipc/src/lib.rs). Ipc/Wire is the
--   connection: the handshake and the frames (ipc/src/lib.rs, ipc/src/client.rs), over a
--   stream and a codec.
-- - State: the daemon's statics and atomics and the world outside, which every call threads.
-- - Ec: access to the controller. Ec/Host is what the daemon asks of its machine: the ports,
--   the clock and the state file. Ec/Ports is the port backends (daemon/src/ec/sys_linux.rs,
--   daemon/src/ec/sys_windows.rs) over the system's calls. Ec/Offsets is
--   daemon/src/ec/offsets.rs. Ec/Device is `EcDevice` and `EcBatch` and Ec/Probe is the
--   detection (daemon/src/ec/mod.rs). Ec/I2ec states the documented behaviour of the
--   controller's ports as hypotheses, and Ec/Registers derives from them that a transaction
--   reads or writes one register, the interface that the hardware functions use. Ec/Frame is
--   what holds on any host.
-- - Hw: the functions of daemon/src/ec/hw, one module per file of that folder.
-- - Handlers: daemon/src/handlers.rs; `do_work` is the answer to one request.
-- - Telemetry: daemon/src/telemetry/mod.rs, its worker on the list of what it receives.
-- - Startup: `main` of daemon/src/main.rs with its arguments, up to the threads that it
--   spawns, and the watchdog of the controller's lock.
-- - SystemEvents: the sources of the system's events and the names of the machine
--   (daemon/src/services/systemd_service.rs, daemon/src/services/win_service.rs), the Linux
--   ones over the bus that they subscribe to; SystemEvents/Windows/Stops is about the turns of
--   the Windows service and its manager, SystemEvents/PanicHook is the hook of `init_logger`.
--   Service is `process_service` of daemon/src/main.rs, the reaction to the events.
-- - Connection: `process_ipc_connection` of daemon/src/main.rs, the thread that serves one
--   client, on the daemon and the stream that the thread owns; Connection/Answers and
--   Connection/Session put the client of ipc/src/client.rs at the other end. Connection/Strangers
--   is about what connects without the greeting.
-- - Running: the daemon's threads taking turns, as a step relation on the daemon's state.
--   Running/Silent follows the telemetry's switch over such turns.
-- - TelemetryServer: the answer to one request (telemetry_server/src/main.rs), over the
--   database, the decoders and the HTTP library as parameters. TelemetryServer/Schema is the
--   tables that the start makes and the columns of the inserts, over SQLite.
-- - Cli: the command line client (cli/src/main.rs). Cli/Main has what it prints, its exit code
--   and the monitoring, over the daemon, the console and the translations as parameters.
-- - Gui: the desktop application. Gui/State is gui/src/state.rs, Gui/Arguments and
--   Gui/Commands are gui/src/tauri_cmds.rs, Gui/Desktop is gui/src/ipc_client.rs with
--   gui/src/power_status.rs, Gui/Poller is gui/src/poller.rs, Gui/Tray the menu and the
--   tooltip of gui/src/tray.rs, Gui/Shell the commands that ask the desktop
--   (gui/src/tauri_cmds.rs, gui/src/logging.rs), Gui/Logging and Gui/Calendar the filter, the
--   folder and the date of gui/src/logging.rs, Gui/Diagnostics is gui/src/diagnostics.rs and
--   Gui/Updates is gui/src/updates.rs. The commands and the poller meet in the application's
--   state, and both reach the daemon through a world that is a parameter; where a theorem puts
--   the daemon there, a request is `do_work` on its state.
-- - Tests: the bench, a machine that meets the hypotheses, and the theorems applied to it.
--
-- A `u8`, `u16` or `u64` is a natural number; where the code shifts, adds or splits into
-- bytes, the remainder is written out. Loops are over lists (ports, window bases, events,
-- receipts), and the retry loop of the detection counts its attempts down from five. The
-- endless loops of the poller, of a connection and of the client's monitoring run for any
-- number of rounds, which the theorems quantify; Connection/Ends says how many rounds a
-- connection has. The loop that reads a frame's length runs on fuel four: each round that goes
-- on has read one of the four bytes. Strings are lists of character codes. Logging is left
-- out.
--
-- Not modelled: opening sockets and accepting connections, the loggers, the tray's icon and
-- the windows, which are glue over their libraries, and the database's foreign keys. The
-- request for the releases is a parameter. The mutex of the controller is taken and released
-- around each call, which runs alone; whether another thread holds the lock of the settings is
-- part of the state that a call starts in.
pub mod Base
pub mod Ipc
pub mod State
pub mod Telemetry
pub mod Ec
pub mod Hw
pub mod Handlers
pub mod Service
pub mod Startup
pub mod SystemEvents
pub mod TelemetryServer
pub mod Connection
pub mod Running
pub mod Cli
pub mod Gui
mod Tests
