-- ===== src/Base/Lines.antt =====
-- The lines of a text.
use Prim.Native.Nat.{ℕ}
use mathlib.Core.Bool.{Bool, false, ◌&&◌}
use mathlib.Core.List.{List, [], ◌∷◌, ◌++◌}
use lecoo_control_center.Base.Tests.{◌==◌, if◌then◌else◌}
use lecoo_control_center.Base.Text.{Text}

-- `str::lines`: a line ends at a line feed, or at a carriage return before one.
abbrev pub starts_line_feed : Text → Bool
starts_line_feed [] = false
starts_line_feed (c ∷ cs) = c == 10

abbrev pub onto_line : ℕ → List Text → List Text
onto_line c [] = (c ∷ []) ∷ []
onto_line c (l ∷ ls) = (c ∷ l) ∷ ls

unfoldable pub lines : Text → List Text
lines [] = []
lines (c ∷ cs) =
    let rest = lines cs in
    if c == 10
    then [] ∷ rest
    else if (c == 13) && starts_line_feed cs
    then rest
    else onto_line c rest

-- `join("\n")`
abbrev pub after_line_feed : List Text → Text → Text
after_line_feed [] joined = []
after_line_feed (l ∷ ls) joined = 10 ∷ joined

unfoldable pub join_lines : List Text → Text
join_lines [] = []
join_lines (l ∷ ls) = l ++ after_line_feed ls (join_lines ls)
