-- ===== src/Ipc/Wire/Handshake.antt =====
-- Which greetings the daemon's side of the handshake accepts.
use lecoo_control_center.Base.{ℕ, ◌≡◌, ◌↔◌, List, [], ◌∷◌, ◌++◌, arith}
use lecoo_control_center.Ipc.Wire.{done, Stream, accept_handshake}
use lecoo_control_center.Ipc.Wire.RoundTrip.{IsWriter, IsReader}

module _ {S : Type 0} (stream : Stream S) (outgoing incoming : S → List ℕ)
    (writer : IsWriter stream outgoing) (reader : IsReader stream incoming) where
  -- Where five bytes have arrived, the handshake succeeds exactly if they are `LCC` and the major
  -- and minor version of the protocol, 0 and 4.
  pub accept_handshake_iff :
      (a b c major minor : ℕ) (rest : List ℕ) (s : S)
      → incoming s ≡ (a ∷ b ∷ c ∷ major ∷ minor ∷ []) ++ rest
      → ((accept_handshake stream s).0 ≡ done tt)
        ↔ ((a ≡ 0x4C) × (b ≡ 0x43) × (c ≡ 0x43) × (major ≡ 0) × (minor ≡ 4))
  unfolding accept_handshake
  accept_handshake_iff a b c major minor rest s i =
      rw (reader.exact_ok (a ∷ b ∷ c ∷ major ∷ minor ∷ []) rest s i) (
        ground (arith, writer.write_ok (0x4F ∷ 0x4B ∷ 0x4B ∷ 0 ∷ 4 ∷ []) (stream.read_exact 5 s).1))
