-- ===== src/Gui/Logging.antt =====
-- The log's level and files: gui/src/logging.rs. The subscriber and its filters are a library's.
use lecoo_control_center.Base.{Bool, Option, none, some, ◌++◌, ◌||◌, if◌then◌else◌}
use lecoo_control_center.Base.Text.{Text, codes, text_eq}

-- The bare levels.
abbrev pub is_level : Text → Bool
is_level level =
    text_eq level (codes "trace")
    || (text_eq level (codes "debug")
        || (text_eq level (codes "info")
            || (text_eq level (codes "warn") || text_eq level (codes "error"))))

-- The directives that `build_filter` hands to the library.
unfoldable pub build_filter : Text → Text
build_filter level =
    if is_level level
    then level ++ (codes ",lecoo_gui_lib=" ++ (level ++ (codes ",gui=" ++ level)))
    else level

-- Paths joined by the separator.
abbrev pub join : Text → Text → Text
join dir name = dir ++ (codes "/" ++ name)

-- `LogControl::current_log_file`: today's file, if it is there.
unfoldable pub current_log_file : (Text → Bool) → Text → Text → Option Text
current_log_file exists log_dir date =
    let path = join log_dir (codes "gui.log." ++ date) in if exists path then some path else none

-- `resolve_log_dir`, from the project's folder of local files and the folder of the executable.
unfoldable pub resolve_log_dir : Option Text → Option Text → Text
resolve_log_dir (some data_local_dir) exe_dir = join data_local_dir (codes "logs")
resolve_log_dir none (some exe_dir) = join exe_dir (codes "logs")
resolve_log_dir none none = codes "logs"
