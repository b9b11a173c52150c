-- ===== src/Base/Text.antt =====
-- Texts as lists of code points, and the number formats that the program prints.
use Prim.Native.Nat.{ℕ, zero, suc, ◌+◌, ◌/◌, ◌%◌}
use Prim.Native.Char.{code}
use Prim.Native.String.{String}
use mathlib.Core.Bool.{Bool, true, false, ◌||◌, ◌&&◌}
use mathlib.Core.List.{List, [], ◌∷◌, ◌++◌, reverse}
use lecoo_control_center.Base.Tests.{ltb, ◌==◌, if◌then◌else◌}

abbrev pub Text : Type 0
Text = List ℕ

abbrev pub codes : String → Text
codes String.[] = []
codes (String.◌∷◌ c s) = code c ∷ codes s

-- The decimal digits of a number, in front of what is there already; `fuel` bounds the digits.
decimal_onto : ℕ → ℕ → Text → Text
decimal_onto zero n rest = rest
decimal_onto (suc fuel) n rest =
    let more = decimal_onto fuel (n / 10) ((48 + n % 10) ∷ rest) in
    if ltb n 10 then (48 + n) ∷ rest else more

-- `{}` of a `u8`, `u16`, `u32` or `u64`, which have at most 20 digits.
unfoldable pub decimal : ℕ → Text
unfolding decimal_onto
decimal n = decimal_onto 20 n []

abbrev pub hex_upper_digit : ℕ → ℕ
hex_upper_digit d = if ltb d 10 then 48 + d else 55 + d

abbrev pub hex_lower_digit : ℕ → ℕ
hex_lower_digit d = if ltb d 10 then 48 + d else 87 + d

-- `{:02X}` of a `u8`.
abbrev pub hex_byte : ℕ → Text
hex_byte n = hex_upper_digit (n / 16 % 16) ∷ hex_upper_digit (n % 16) ∷ []

-- `{:#04x}` of a `u8`.
abbrev pub hex_prefixed_byte : ℕ → Text
hex_prefixed_byte n = codes "0x" ++ hex_lower_digit (n / 16 % 16) ∷ hex_lower_digit (n % 16) ∷ []

hex_onto : ℕ → ℕ → Text → Text
hex_onto zero n rest = rest
hex_onto (suc fuel) n rest =
    let more = hex_onto fuel (n / 16) (hex_upper_digit (n % 16) ∷ rest) in
    if ltb n 16 then hex_upper_digit n ∷ rest else more

-- `{:#X}` of a `u16`, which has at most four digits.
unfoldable pub hex_prefixed : ℕ → Text
unfolding hex_onto
hex_prefixed n = codes "0x" ++ hex_onto 4 n []

-- `str::starts_with` and `str::contains`.
unfoldable pub starts_with : Text → Text → Bool
starts_with [] t = true
starts_with (p ∷ ps) [] = false
starts_with (p ∷ ps) (c ∷ cs) = (p == c) && starts_with ps cs

unfoldable pub contains : Text → Text → Bool
unfolding starts_with
contains p [] = starts_with p []
contains p (c ∷ cs) = starts_with p (c ∷ cs) || contains p cs

-- `str::trim`, for the white space of ASCII.
abbrev pub is_space : ℕ → Bool
is_space c = (c == 32) || ((c == 9) || ((c == 10) || ((c == 11) || ((c == 12) || (c == 13)))))

trim_start : Text → Text
trim_start [] = []
trim_start (c ∷ cs) = if is_space c then trim_start cs else c ∷ cs

unfoldable pub trim : Text → Text
unfolding trim_start
trim t = reverse (trim_start (reverse (trim_start t)))

-- `==` of two strings.
abbrev pub text_eq : Text → Text → Bool
text_eq [] [] = true
text_eq [] (c ∷ cs) = false
text_eq (c ∷ cs) [] = false
text_eq (c ∷ cs) (d ∷ ds) = (c == d) && text_eq cs ds

-- So many upper-case hexadecimal digits of a number, the lowest last.
unfoldable pub hex_digits : ℕ → ℕ → Text
hex_digits zero n = []
hex_digits (suc k) n = hex_digits k (n / 16) ++ hex_upper_digit (n % 16) ∷ []
