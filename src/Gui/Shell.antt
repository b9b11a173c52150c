-- ===== src/Gui/Shell.antt =====
-- The commands of the window that ask the desktop, not the daemon: gui/src/tauri_cmds.rs, and the
-- level of the log (gui/src/logging.rs). The desktop's calls fail with their error's text.
use lecoo_control_center.Base.{Bool, if◌then◌else◌}
use lecoo_control_center.Base.Text.{Text, codes}
use lecoo_control_center.Base.Action.{Action, Outcome, ok, err, panicked, attempt, ◌>>=◌, ◌>>◌}
use lecoo_control_center.Gui.Logging.{build_filter}

pub data Platform : Type 0 where
  windows macos other_unix : Platform

-- The calls of the libraries: the autostart's manager, the file system, processes, and the filter of
-- the log, which is parsed and put into force.
pub record Shell (S Filter : Type 0) : Type 0 where
  pub enable : Action S (Unit {0})
  pub disable : Action S (Unit {0})
  pub is_enabled : Action S Bool
  pub create_dir_all : Text → Action S (Unit {0})
  pub spawn : Text → Text → Action S (Unit {0})
  pub parse_filter : Text → Action S Filter
  -- `EnvFilter::new`, which drops what it cannot parse.
  pub new_filter : Text → Filter
  pub put_filter : Filter → Action S (Unit {0})

module _ {S Filter : Type 0} (shell : Shell S Filter) where
  unfoldable pub set_autostart : Bool → Action S (Unit {0})
  set_autostart enable = if enable then shell.enable else shell.disable

  unfoldable pub get_autostart : Action S Bool
  get_autostart = shell.is_enabled

  abbrev pub explorer : Platform → Text
  explorer Platform.windows = codes "explorer"
  explorer Platform.macos = codes "open"
  explorer Platform.other_unix = codes "xdg-open"

  abbrev pub open_in_explorer : Platform → Text → Action S (Unit {0})
  open_in_explorer platform path = shell.spawn (explorer platform) path

  unfoldable pub open_logs_dir : Platform → Text → Action S (Unit {0})
  open_logs_dir platform log_dir = do
    shell.create_dir_all log_dir
    open_in_explorer platform log_dir

  -- `LogControl::set_level`, the whole of the command `set_log_level`.
  unfoldable pub set_level : Text → Action S (Unit {0})
  set_level level = do filter ← shell.parse_filter (build_filter level); shell.put_filter filter

  abbrev pub or_info : Outcome Filter → Action S Filter
  or_info (ok filter) s = (ok filter, s)
  or_info (err e) s = (ok (shell.new_filter (codes "info")), s)
  or_info panicked s = (panicked, s)

  -- The filter that `init` starts the log with.
  unfoldable pub initial_filter : Bool → Action S Filter
  initial_filter verbose = do
    parsed ←
        attempt
          (shell.parse_filter (build_filter (if verbose then codes "debug" else codes "info")))
    or_info parsed
