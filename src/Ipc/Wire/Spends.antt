-- ===== src/Ipc/Wire/Spends.antt =====
-- A stream on which only so many bytes can still arrive: what the calls of the protocol use up.
use lecoo_control_center.Base.{ℕ, ◌+◌, ◌≤◌, ◌<◌, ◌≡◌, refl, List, [], arith}
use lecoo_control_center.Ipc.Wire.{
  IoResult, done, failed, Io, Stream, Codec, io_then, ◌>>>=◌, accept_handshake, send, recv,
  read_length,
}
use lecoo_control_center.Ipc.Wire.Within.{
  IsPreorder, Within, io_frame, length-Within, send-Within, accept-Within,
}

-- `left` counts the bytes that can still arrive: nothing that this side does adds to them, and an
-- exact read that succeeds has used up as many as it was asked for.
pub record IsFinite {P : Type 0} (stream : Stream P) (left : P → ℕ) : Type 0 where
  pub read_le : (n : ℕ) → Within (λ t s. left t ≤ left s) (stream.read n)
  pub exact_le : (n : ℕ) → Within (λ t s. left t ≤ left s) (stream.read_exact n)
  pub exact_takes :
      (n : ℕ) (bytes : List ℕ) (s : P)
      → (stream.read_exact n s).0 ≡ done bytes
      → left (stream.read_exact n s).1 + n ≤ left s
  pub write_le : (bytes : List ℕ) → Within (λ t s. left t ≤ left s) (stream.write_all bytes)
  pub flush_le : Within (λ t s. left t ≤ left s) stream.flush

module _ {P : Type 0} (left : P → ℕ) where
  -- No more bytes can arrive than before.
  abbrev pub AtMost : P → P → Type 0
  AtMost t s = left t ≤ left s

  AtMost-IsPreorder : IsPreorder AtMost
  AtMost-IsPreorder = record { reflexive = λ s. omega arith; transitive = λ u t s p q. omega arith }

  -- What a call came to that began with so many bytes to come: a result has used up some of them.
  abbrev pub Took : {A : Type 0} → IoResult A × P → ℕ → Type 0
  Took (done a, t) n = left t < n
  Took (failed kind e, t) n = left t ≤ n

  fewer-Took : {A : Type 0} (r : IoResult A × P) (n : ℕ) → left r.1 < n → Took r n
  fewer-Took (done a, t) n p = p
  fewer-Took (failed kind e, t) n p = omega arith

  Took-le : {A : Type 0} (r : IoResult A × P) (m n : ℕ) → m ≤ n → Took r m → Took r n
  Took-le (done a, t) m n p q = omega arith
  Took-le (failed kind e, t) m n p q = omega arith

  then-Took :
      {A B : Type 0} (m : Io P A) (f : A → Io P B) (s : P)
      → Within AtMost m
      → ((a : A) (t : P) → Took (f a t) (left t))
      → Took ((m >>>= f) s) (left s)
  then-Took {A} {B} m f s k l = split (m s).0 (m s).1 (k.within s)
    where
      split : (r : IoResult A) (t : P) → left t ≤ left s → Took (io_then r f t) (left s)
      split (done a) t p = Took-le (f a t) (left t) (left s) p (l a t)
      split (failed kind e) t p = p

module _ {P : Type 0} (stream : Stream P) (left : P → ℕ) (finite : IsFinite stream left) where
  exact-Took :
      {A : Type 0} (n : ℕ) (f : List ℕ → Io P A) (s : P)
      → 0 < n
      → ((bytes : List ℕ) → Within (AtMost left) (f bytes))
      → Took left ((stream.read_exact n >>>= f) s) (left s)
  exact-Took {A} n f s some l =
      split (stream.read_exact n s).0 (stream.read_exact n s).1
        (λ bytes. finite.exact_takes n bytes s) ((finite.exact_le n).within s)
    where
      split :
          (r : IoResult (List ℕ)) (t : P)
          → ((bytes : List ℕ) → r ≡ done bytes → left t + n ≤ left s)
          → left t ≤ left s
          → Took left (io_then r f t) (left s)
      split (done bytes) t took p =
          let q : left (f bytes t).1 ≤ left t = (l bytes).within t in
          let r = took bytes refl in fewer-Took left (f bytes t) (left s) (omega arith)
      split (failed kind e) t took p = p

  -- A message that is received has used up bytes.
  pub recv-Took : {T : Type 0} (codec : Codec T) (s : P) → Took left (recv stream codec s) (left s)
  unfolding recv
  recv-Took codec s =
      let order = AtMost-IsPreorder left in
      then-Took left (read_length stream 4 []) _ s
        (length-Within order stream finite.read_le finite.exact_le 4 [])
        (λ len_bytes t.
          exact-Took 3 _ t (omega arith)
            (λ version. search (io_frame, AtMost-IsPreorder, finite.exact_le) depth 12))

  pub send-AtMost :
      {T : Type 0} (codec : Codec T) (msg : T) → Within (AtMost left) (send stream codec msg)
  send-AtMost codec msg =
      send-Within (AtMost-IsPreorder left) stream finite.write_le codec msg finite.flush_le

  pub accept-AtMost : Within (AtMost left) (accept_handshake stream)
  accept-AtMost = accept-Within (AtMost-IsPreorder left) stream finite.write_le finite.exact_le
