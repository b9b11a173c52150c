-- ===== src/Ipc/Wire/Meets.antt =====
-- What both ends of a handshake make of the same greeting.
use lecoo_control_center.Base.{ℕ, ◌≡◌, ◌⊎◌, Bool, true, false, not, ◌||◌, ◌==◌, List, [], ◌∷◌}
use lecoo_control_center.Ipc.Wire.{ErrorKind, IoResult, done, failed, mismatch_text, rejected_text}

-- `LCC` and a version.
abbrev pub greeting : ℕ → ℕ → List ℕ
greeting major minor = 0x4C ∷ 0x43 ∷ 0x43 ∷ major ∷ minor ∷ []

-- What the daemon writes: `OKK` or `ERR`, and its version.
abbrev pub reply : Bool → List ℕ
reply true = 0x45 ∷ 0x52 ∷ 0x52 ∷ 0 ∷ 4 ∷ []
reply false = 0x4F ∷ 0x4B ∷ 0x4B ∷ 0 ∷ 4 ∷ []

-- Whether a version is refused.
abbrev pub refuses : ℕ → ℕ → Bool
refuses major minor = not (major == 0) || not (minor == 4)

abbrev daemon_verdict : Bool → ℕ → ℕ → IoResult (Unit {0})
daemon_verdict true major minor = failed ErrorKind.invalid_data (mismatch_text major minor)
daemon_verdict false major minor = done tt

abbrev client_verdict : Bool → List ℕ → IoResult (ℕ × ℕ)
client_verdict true version = failed ErrorKind.connection_refused (rejected_text version 0 4)
client_verdict false version = done (0, 4)

-- Both succeed for version 0.4, and both fail for any other.
abbrev pub Agreed : ℕ → ℕ → ℕ → IoResult (Unit {0}) → IoResult (ℕ × ℕ) → Type 0
Agreed major minor patch daemon client =
    ((major ≡ 0) × (minor ≡ 4) × (daemon ≡ done tt) × (client ≡ done (0, 4)))
    ⊎ ((¬ ((major ≡ 0) × (minor ≡ 4)))
        × (daemon ≡ failed ErrorKind.invalid_data (mismatch_text major minor))
        × (client
            ≡ failed ErrorKind.connection_refused (rejected_text (major ∷ minor ∷ patch ∷ []) 0 4)))
