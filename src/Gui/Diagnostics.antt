-- ===== src/Gui/Diagnostics.antt =====
-- The bundle of diagnostics: gui/src/diagnostics.rs, over the versions that the application is built
-- with and the end of the log's file.
use lecoo_control_center.Base.{
  ℕ, ◌-◌, ◌*◌, ◌⊎◌, inl, inr, Option, none, some, List, [], ◌∷◌, ◌++◌, ltb, if◌then◌else◌,
}
use lecoo_control_center.Base.Text.{Text, codes, decimal}
use lecoo_control_center.Base.Lines.{lines, join_lines}
use lecoo_control_center.Base.Lists.{length, drop}
use lecoo_control_center.Gui.State.{AppState, ConnectionStatus}

abbrev pub tail_lines : ℕ
tail_lines = 200

-- Where reading starts in a file of so many bytes: at most 64 KiB from its end.
abbrev pub tail_offset : ℕ → ℕ
tail_offset len = len - 64 * 1024

-- `split_off`: the last lines of many.
abbrev pub last_lines : List Text → List Text
last_lines ls = if ltb tail_lines (length ls) then drop (length ls - tail_lines) ls else ls

-- Today's log file: `none` if there is none yet, else its bytes or the error of reading it, on the
-- left; `decode` is `from_utf8_lossy`.
unfoldable pub read_tail : (List ℕ → Text) → Option (Text ⊎ List ℕ) → Text ⊎ Text
read_tail decode none = inr []
read_tail decode (some (inr bytes)) =
    inr (join_lines (last_lines (lines (decode (drop (tail_offset (length bytes)) bytes)))))
read_tail decode (some (inl e)) = inl e

-- What the application is built with, and the folder of its logs.
pub record Build : Type 0 where
  pub version : Text
  pub git : Option Text
  pub os : Text
  pub arch : Text
  pub log_dir : Text

abbrev pub line : Text → Text
line t = t ++ 10 ∷ []

abbrev pub git_line : Option Text → Text
git_line none = []
git_line (some git) = line (codes "- Git: " ++ git)

abbrev pub daemon_line : ConnectionStatus → Text
daemon_line (ConnectionStatus.connected (major, minor)) = line (
    codes "- Daemon: v"
    ++ (decimal major ++ (codes "." ++ (decimal minor ++ codes " (connected)"))))
daemon_line ConnectionStatus.connecting = line (codes "- Daemon: (connecting)")
daemon_line ConnectionStatus.disconnected = line (codes "- Daemon: (disconnected)")
daemon_line (ConnectionStatus.error message) =
    line (codes "- Daemon: (error: " ++ (message ++ codes ")"))

abbrev pub error_lines : Option Text → Text
error_lines none = line (line (codes "(none)"))
error_lines (some e) = line (codes "```") ++ (line e ++ line (line (codes "```")))

abbrev pub log_lines : Text ⊎ Text → Text
log_lines (inr []) = line (codes "(empty)")
log_lines (inr (c ∷ cs)) = line (codes "```") ++ (line (c ∷ cs) ++ line (codes "```"))
log_lines (inl e) = line (codes "(could not read log: " ++ (e ++ codes ")"))

unfoldable pub collect : Build → AppState → Text ⊎ Text → Text
collect build app_state log =
    line (line (codes "### Lecoo Control Center — diagnostics"))
    ++ (line (line (codes "Paste this block into your GitHub issue."))
        ++ (line (codes "**Versions**")
            ++ (line (codes "- GUI: " ++ build.version)
                ++ (git_line build.git
                    ++ (line (codes "- OS: " ++ build.os)
                        ++ (line (codes "- Arch: " ++ build.arch)
                            ++ (line (daemon_line app_state.connection)
                                ++ (line (codes "**Last connection error**")
                                    ++ (error_lines app_state.last_connection_error
                                        ++ (line (codes "**Log tail**")
                                            ++ (line (
                                                  line (
                                                    codes "Folder: `"
                                                    ++ (build.log_dir ++ codes "`")))
                                                ++ log_lines log)))))))))))
