-- ===== src/TelemetryServer/Clients.antt =====
-- Clients are told apart by the text that stands for their id in the tables.
use native.Mathlib.Numerals.{unary_clauses}
use lecoo_control_center.Base.{
  ℕ, zero, suc, ◌*◌, ◌/◌, ◌%◌, ◌^◌, ◌<◌, ◌≡◌, ap, List, [], ◌∷◌, ◌++◌, arith,
}
use lecoo_control_center.Base.Lists.{drop}
use lecoo_control_center.Base.Text.{hex_digits, hex_upper_digit}
use lecoo_control_center.TelemetryServer.{client_uuid}

-- A number's last part does not hide where the first part ends.
unsnoc : {A : Type 0} (xs ys : List A) (a b : A) → xs ++ a ∷ [] ≡ ys ++ b ∷ [] → (xs ≡ ys) × (a ≡ b)
unsnoc [] [] a b e = ground arith
unsnoc [] (y ∷ []) a b e = ground arith
unsnoc [] (y ∷ y' ∷ ys) a b e = ground arith
unsnoc (x ∷ []) [] a b e = ground arith
unsnoc (x ∷ x' ∷ xs) [] a b e = ground arith
unsnoc (x ∷ xs) (y ∷ ys) a b e = let k = unsnoc xs ys a b in ground arith

digit-Injective : (m n : ℕ) → m < 16 → n < 16 → hex_upper_digit m ≡ hex_upper_digit n → m ≡ n
digit-Injective m n p q e = ground arith

quotient : (c m : ℕ) → m < c * 16 → m / 16 < c
quotient c m p = omega arith

power : (m k : ℕ) → m < 16 ^ suc k → m < 16 ^ k * 16
power m k p = let p' = simp unary_clauses at p in omega arith

hex_digits-Injective :
    (k m n : ℕ) → m < 16 ^ k → n < 16 ^ k → hex_digits k m ≡ hex_digits k n → m ≡ n
unfolding hex_digits
hex_digits-Injective zero m n p q e = ground arith
hex_digits-Injective (suc k) m n p q e =
    let parts = unsnoc (hex_digits k (m / 16)) (hex_digits k (n / 16)) _ _ e in
    let high =
      hex_digits-Injective k (m / 16) (n / 16) (quotient (16 ^ k) m (power m k p))
        (quotient (16 ^ k) n (power n k q)) parts.0 in
    let low = digit-Injective (m % 16) (n % 16) (omega arith) (omega arith) parts.1 in omega arith

-- Two 64-bit ids that the server writes as the same text are the same id: clients are not merged.
pub client_uuid-Injective :
    (a b : ℕ) → a < 2 ^ 64 → b < 2 ^ 64 → client_uuid a ≡ client_uuid b → a ≡ b
unfolding client_uuid
client_uuid-Injective a b p q e = hex_digits-Injective 16 a b p q (ap (drop 2) e)
