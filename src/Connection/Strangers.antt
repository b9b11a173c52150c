-- ===== src/Connection/Strangers.antt =====
-- Whom a connection serves.
use lecoo_control_center.Base.{ℕ, ◌≡◌}
use lecoo_control_center.Ec.Host.{Host}

-- `LCC` and the version 0.4.
abbrev pub IsGreeting : ℕ → ℕ → ℕ → ℕ → ℕ → Type 0
IsGreeting a b c major minor = (a ≡ 0x4C) × (b ≡ 0x43) × (c ≡ 0x43) × (major ≡ 0) × (minor ≡ 4)
