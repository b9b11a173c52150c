-- ===== src/Tests/Logs.antt =====
-- The date of the log, the names of the machine and the bundle of diagnostics.
use lecoo_control_center.Base.{ℕ, ◌≡◌, refl, true, none, some, inl, inr, List, [], ◌∷◌, ◌++◌}
use lecoo_control_center.Base.Text.{codes}
use lecoo_control_center.Gui.State.{new_state}
use lecoo_control_center.Gui.Calendar.{ℤ, civil_from_days, chrono_today}
use lecoo_control_center.Gui.Logging.{build_filter, current_log_file, resolve_log_dir}
use lecoo_control_center.Gui.Diagnostics.{Build, read_tail, collect}
use lecoo_control_center.SystemEvents.Names.{cpu_name, os_name}

last_second_of_a_leap_day : chrono_today (some 1709251199) ≡ codes "2024-02-29"
unfolding chrono_today lecoo_control_center.Gui.Calendar.civil_from_days
    lecoo_control_center.Gui.Calendar.wide_civil lecoo_control_center.Base.Text.decimal
last_second_of_a_leap_day = refl

clock_before_the_epoch : chrono_today none ≡ codes "1970-01-01"
unfolding chrono_today lecoo_control_center.Gui.Calendar.civil_from_days
    lecoo_control_center.Gui.Calendar.wide_civil lecoo_control_center.Base.Text.decimal
clock_before_the_epoch = refl

abbrev ascii : List ℕ → List ℕ
ascii bytes = bytes

tail_of_a_short_file :
    read_tail ascii (some (inr (codes "started\r\nconnected\n"))) ≡ inr (codes "started\nconnected")
unfolding read_tail lecoo_control_center.Base.Lines.lines lecoo_control_center.Base.Lines.join_lines
tail_of_a_short_file = refl

unreadable_file : read_tail ascii (some (inl (codes "denied"))) ≡ inl (codes "denied")
unfolding read_tail
unreadable_file = refl

abbrev build : Build
build = record {
  version = codes "0.2.0";
  git = none;
  os = codes "linux";
  arch = codes "x86_64";
  log_dir = codes "logs";
}

first_bundle :
    collect build new_state (inr [])
    ≡ codes "### Lecoo Control Center — diagnostics\n\nPaste this block into your GitHub issue.\n\n"
      ++ (codes
            "**Versions**\n- GUI: 0.2.0\n- OS: linux\n- Arch: x86_64\n- Daemon: (disconnected)\n"
          ++ codes
              "\n**Last connection error**\n(none)\n\n**Log tail**\nFolder: `logs`\n\n(empty)\n")
unfolding collect
first_bundle = refl

cpu_of_cpuinfo :
    cpu_name (some (codes "processor\t: 0\nmodel name\t: AMD Ryzen 7 8845HS\n"))
    ≡ codes "AMD Ryzen 7 8845HS"
unfolding cpu_name lecoo_control_center.Base.Lines.lines lecoo_control_center.Base.Text.starts_with
    lecoo_control_center.SystemEvents.Names.second_part lecoo_control_center.Base.Text.trim
cpu_of_cpuinfo = refl

os_of_release :
    os_name (some (codes "NAME=Fedora\nPRETTY_NAME=\"Fedora Linux 41\"\n"))
    ≡ codes "Fedora Linux 41"
unfolding os_name lecoo_control_center.Base.Lines.lines lecoo_control_center.Base.Text.starts_with
    lecoo_control_center.SystemEvents.Names.second_part
    lecoo_control_center.SystemEvents.Names.trim_quotes
os_of_release = refl

-- The level comes first, on its own, and holds for every target.
debug_directives : build_filter (codes "debug") ≡ codes "debug,lecoo_gui_lib=debug,gui=debug"
unfolding build_filter
debug_directives = refl

full_syntax_is_kept : build_filter (codes "hyper=warn") ≡ codes "hyper=warn"
unfolding build_filter
full_syntax_is_kept = refl

todays_file :
    current_log_file (λ path. true) (resolve_log_dir none none) (codes "2024-02-29")
    ≡ some (codes "logs/gui.log.2024-02-29")
unfolding current_log_file resolve_log_dir
todays_file = refl

-- The year wraps on a clock far beyond any real one.
year_wraps : (civil_from_days 785000000000).year ≡ ℤ.negsuc 2145708325
unfolding civil_from_days lecoo_control_center.Gui.Calendar.wide_civil
year_wraps = refl
