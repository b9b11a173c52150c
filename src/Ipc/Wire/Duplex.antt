-- ===== src/Ipc/Wire/Duplex.antt =====
-- One end of a socket: what it does to the bytes written and to those that have arrived.
use lecoo_control_center.Base.{ℕ, ◌≡◌, refl, ◌∙◌, List}
use lecoo_control_center.Ipc.Wire.{Stream}
use lecoo_control_center.Ipc.Wire.RoundTrip.{IsWriter, IsReader}
use lecoo_control_center.Ipc.Wire.Within.{IsPreorder, Within}

-- A stream of which both sides do what a socket does: what has been written stays written when
-- something is read, and what has arrived stays there when something is written.
pub record IsDuplex {S : Type 0} (stream : Stream S) (outgoing incoming : S → List ℕ) : Type 0 where
  pub writes : IsWriter stream outgoing
  pub reads : IsReader stream incoming
  pub read_keeps : (n : ℕ) → Within (λ t s. outgoing t ≡ outgoing s) (stream.read n)
  pub exact_keeps : (n : ℕ) → Within (λ t s. outgoing t ≡ outgoing s) (stream.read_exact n)
  pub write_keeps :
      (bytes : List ℕ) → Within (λ t s. incoming t ≡ incoming s) (stream.write_all bytes)
  pub flush_keeps : Within (λ t s. incoming t ≡ incoming s) stream.flush

-- What stays as it was.
pub same-IsPreorder : {S : Type 0} (view : S → List ℕ) → IsPreorder (λ (t s : S). view t ≡ view s)
same-IsPreorder view = record { reflexive = λ s. refl; transitive = λ u t s p q. p ∙ q }
