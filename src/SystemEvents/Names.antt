-- ===== src/SystemEvents/Names.antt =====
-- The names of the processor, the system and the board: `get_system_info` of
-- daemon/src/services/systemd_service.rs and of daemon/src/services/win_service.rs, and
-- `get_board_name` of the latter.
use lecoo_control_center.Base.{
  ℕ, Option, none, some, List, [], ◌∷◌, ◌++◌, leb, ◌==◌, ◌&&◌, if◌then◌else◌,
}
use lecoo_control_center.Base.Text.{Text, codes, starts_with, contains, trim}
use lecoo_control_center.Base.Lines.{lines}
use mathlib.Core.List.{reverse}

-- `find` of the line that starts with a prefix.
abbrev pub find_line : Text → List Text → Option Text
find_line prefix [] = none
find_line prefix (l ∷ ls) =
    let later = find_line prefix ls in if starts_with prefix l then some l else later

-- The text up to a separator.
abbrev pub until : ℕ → Text → Text
until sep [] = []
until sep (c ∷ cs) = let rest = until sep cs in if c == sep then [] else c ∷ rest

-- `split(sep).nth(1)`
unfoldable pub second_part : ℕ → Text → Option Text
second_part sep [] = none
second_part sep (c ∷ cs) =
    let later = second_part sep cs in if c == sep then some (until sep cs) else later

-- `trim_matches('"')`
abbrev pub trim_quotes_start : Text → Text
trim_quotes_start [] = []
trim_quotes_start (c ∷ cs) = let rest = trim_quotes_start cs in if c == 34 then rest else c ∷ cs

unfoldable pub trim_quotes : Text → Text
trim_quotes t = reverse (trim_quotes_start (reverse (trim_quotes_start t)))

abbrev pub text_or : Text → Option Text → Text
text_or unknown none = unknown
text_or unknown (some t) = t

abbrev pub and_then : {A B : Type 0} → Option A → (A → Option B) → Option B
and_then none f = none
and_then (some a) f = f a

abbrev pub map_some : {A B : Type 0} → (A → B) → Option A → Option B
map_some f none = none
map_some f (some a) = some (f a)

-- The files as read; `none` for one that cannot be read.
unfoldable pub cpu_name : Option Text → Text
cpu_name cpuinfo = text_or (codes "Unknown CPU") (
    map_some trim
      (and_then (find_line (codes "model name") (lines (text_or [] cpuinfo))) (second_part 58)))

unfoldable pub os_name : Option Text → Text
os_name os_release = text_or (codes "Linux") (
    map_some trim_quotes (
      and_then (find_line (codes "PRETTY_NAME=") (lines (text_or [] os_release))) (second_part 61)))

unfoldable pub host_name : Option Text → Text
host_name product_name = text_or (codes "Unknown Host") (map_some trim product_name)

abbrev pub linux_system_info : Option Text → Option Text → Option Text → Text → Text × Text × Text
linux_system_info cpuinfo os_release product_name board_name = (
  cpu_name cpuinfo,
  os_name os_release,
  host_name product_name ++ (codes " (" ++ (board_name ++ codes ")")),
)

-- Windows: the values of the registry, `none` for a key or a value that cannot be read, the parser of
-- the build's number and `str::replace`.
unfoldable pub windows_board_name : Option Text → Text
windows_board_name product = text_or (codes "Unknown Motherboard") product

-- The name and the build of the system, whose key may be missing.
abbrev pub os_and_build : Option (Option Text × Option Text) → Text × Text
os_and_build none = (codes "Windows", codes "0")
os_and_build (some (name, build)) = (text_or (codes "Windows") name, text_or (codes "0") build)

abbrev pub number_or_zero : Option ℕ → ℕ
number_or_zero none = 0
number_or_zero (some n) = n

module _ (parse : Text → Option ℕ) (replace : Text → Text → Text → Text) where
  -- Windows 11 calls itself Windows 10 in the registry.
  unfoldable pub real_name : Text → Text → Text
  real_name os_name os_version =
      let build_number = number_or_zero (parse os_version) in
      if contains (codes "Windows 10") os_name && leb 22000 build_number
      then replace os_name (codes "Windows 10") (codes "Windows 11")
      else os_name

  unfoldable pub windows_system_info :
      Option Text → Option Text → Option (Option Text × Option Text) → Text × Text × Text
  windows_system_info cpu product version = (
    text_or (codes "Unknown CPU") cpu,
    real_name (os_and_build version).0 (os_and_build version).1
        ++ (codes " (Build " ++ ((os_and_build version).1 ++ codes ")")),
    windows_board_name product,
  )
