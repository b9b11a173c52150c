-- ===== src/Gui/Updates.antt =====
-- `is_newer` and `compare_version` (gui/src/updates.rs). A text is a list of character codes.
use Prim.Native.Nat.{compare, Ordering}
use lecoo_control_center.Base.{
  ℕ, zero, suc, ◌+◌, ◌-◌, ◌*◌, ◌^◌, Bool, true, false, ◌&&◌, not, Option, none, some, List, [], ◌∷◌,
  ltb, leb, ◌==◌, if◌then◌else◌,
}
use lecoo_control_center.Base.Text.{Text}
use lecoo_control_center.Base.Lists.{length, get_or}
pub mod Check

-- `split_once('-')`: what stands before the first dash, and whether there is one.
abbrev pub before_dash : Text → Text
before_dash [] = []
before_dash (c ∷ cs) = let rest = before_dash cs in if c == 0x2D then [] else c ∷ rest

abbrev pub has_dash : Text → Bool
has_dash [] = false
has_dash (c ∷ cs) = let rest = has_dash cs in if c == 0x2D then true else rest

-- `split('.')`: at least one part.
abbrev pub onto_first : ℕ → List Text → List Text
onto_first c [] = (c ∷ []) ∷ []
onto_first c (part ∷ parts) = (c ∷ part) ∷ parts

abbrev pub split_dots : Text → List Text
split_dots [] = [] ∷ []
split_dots (c ∷ cs) = let rest = split_dots cs in if c == 0x2E then [] ∷ rest else onto_first c rest

abbrev pub is_digit : ℕ → Bool
is_digit c = leb 0x30 c && leb c 0x39

abbrev pub digits_value : ℕ → Text → Option ℕ
digits_value n [] = some n
digits_value n (c ∷ cs) =
    let rest = digits_value (n * 10 + (c - 0x30)) cs in if is_digit c then rest else none

-- `parse::<u64>().unwrap_or(0)`: digits, perhaps after a plus sign, of a value that fits.
abbrev pub in_range : Option ℕ → ℕ
in_range none = 0
in_range (some n) = if ltb n (2 ^ 64) then n else 0

abbrev pub unsigned_value : Text → ℕ
unsigned_value [] = 0
unsigned_value (c ∷ cs) = in_range (digits_value 0 (c ∷ cs))

abbrev pub part_value : Text → ℕ
part_value [] = 0
part_value (c ∷ cs) = if c == 0x2B then unsigned_value cs else unsigned_value (c ∷ cs)

abbrev pub part_values : List Text → List ℕ
part_values [] = []
part_values (p ∷ ps) = part_value p ∷ part_values ps

-- The closure `parse`: the numeric parts, and whether there is a suffix.
abbrev pub parse : Text → List ℕ × Bool
parse s = (part_values (split_dots (before_dash s)), has_dash s)

abbrev pub longer : ℕ → ℕ → ℕ
longer a b = if leb a b then b else a

-- The match on the suffixes.
abbrev pub compare_pre : Bool → Bool → Ordering
compare_pre false true = Ordering.gt
compare_pre true false = Ordering.lt
compare_pre false false = Ordering.eq
compare_pre true true = Ordering.eq

-- The loop over so many parts from index `i` on, and what follows it.
unfoldable pub compare_from : ℕ → ℕ → List ℕ × Bool → List ℕ × Bool → Ordering
compare_from zero i a b = compare_pre a.1 b.1
compare_from (suc left) i a b =
    let rest = compare_from left (suc i) a b in
    let x = get_or a.0 i 0 in let y = get_or b.0 i 0 in if not (x == y) then compare x y else rest

unfoldable pub compare_version : Text → Text → Ordering
compare_version a b =
    compare_from (longer (length (parse a).0) (length (parse b).0)) 0 (parse a) (parse b)

abbrev pub is_greater : Ordering → Bool
is_greater Ordering.gt = true
is_greater _ = false

unfoldable pub is_newer : Text → Text → Bool
is_newer candidate baseline = is_greater (compare_version candidate baseline)
