-- ===== src/Ipc/Wire/Within.antt =====
-- What the calls of the protocol do to a stream, as a relation of the stream after a call to the
-- stream before it: a preorder that every call of the stream keeps, the protocol's calls keep.
use lecoo_control_center.Base.{ℕ, zero, suc, Bool, true, false, List, [], ◌∷◌, ◌++◌, if◌then◌else◌}
use lecoo_control_center.Base.Text.{Text}
use lecoo_control_center.Ipc.Wire.{
  ErrorKind, IoResult, done, failed, Io, Stream, Codec, io_then, ◌>>>=◌, io_pure, io_fail,
  or_invalid, collect, accept_handshake, send, recv, read_length,
}

pub record IsPreorder {P : Type 0} (R : P → P → Type 0) : Type 0 where
  pub reflexive : (s : P) → R s s
  pub transitive : (u t s : P) → R u t → R t s → R u s

pub record Within {P A : Type 0} (R : P → P → Type 0) (m : Io P A) : Type 0 where
  pub within : (s : P) → R (m s).1 s

module _ {P : Type 0} {R : P → P → Type 0} (order : IsPreorder R) where
  pub then-Within :
      {A B : Type 0} {m : Io P A} {f : A → Io P B}
      → Within R m
      → ((a : A) → Within R (f a))
      → Within R (m >>>= f)
  then-Within {A} {B} {m} {f} k l = record { within = λ s. split (m s).0 (m s).1 s (k.within s) }
    where
      split : (r : IoResult A) (t s : P) → R t s → R (io_then r f t).1 s
      split (done a) t s p = order.transitive _ t s ((l a).within t) p
      split (failed kind e) t s p = p

  pub pure-Within : {A : Type 0} (a : A) → Within R (io_pure {S = P} a)
  pure-Within a = record { within = order.reflexive }

  pub fail-Within :
      {A : Type 0} (kind : ErrorKind) (e : Text) → Within R (io_fail {S = P} {A = A} kind e)
  fail-Within kind e = record { within = order.reflexive }

  pub if-Within :
      {A : Type 0} (b : Bool) {m n : Io P A}
      → Within R m
      → Within R n
      → Within R (if b then m else n)
  if-Within true k l = k
  if-Within false k l = l

  pub invalid-Within : {A : Type 0} (r : IoResult A) → Within R (or_invalid {S = P} r)
  invalid-Within (done a) = pure-Within a
  invalid-Within (failed kind e) = fail-Within ErrorKind.invalid_data e

pub ruleset io_frame = (then-Within, pure-Within, fail-Within, if-Within, invalid-Within)

module _ {P : Type 0} {R : P → P → Type 0} (order : IsPreorder R) (stream : Stream P)
    (reads : (n : ℕ) → Within R (stream.read n))
    (exacts : (n : ℕ) → Within R (stream.read_exact n)) where
  collect-Within :
      (again : List ℕ → Io P (List ℕ)) (len_bytes got : List ℕ)
      → ((bytes : List ℕ) → Within R (again bytes))
      → Within R (collect stream again len_bytes got)
  collect-Within again len_bytes [] l = search io_frame
  collect-Within again len_bytes (b ∷ bs) l = l (len_bytes ++ (b ∷ bs))

  pub length-Within : (fuel : ℕ) (bytes : List ℕ) → Within R (read_length stream fuel bytes)
  unfolding read_length
  length-Within zero bytes = search io_frame
  length-Within (suc fuel) bytes =
      let again = length-Within fuel in search (io_frame, collect-Within)

  -- The rest of `recv`, behind the length.
  pub recv-Within : {T : Type 0} (codec : Codec T) → Within R (recv stream codec)
  unfolding recv
  recv-Within codec = search (io_frame, length-Within) depth 12

module _ {P : Type 0} {R : P → P → Type 0} (order : IsPreorder R) (stream : Stream P)
    (writes : (bytes : List ℕ) → Within R (stream.write_all bytes)) where
  pub send-Within :
      {T : Type 0} (codec : Codec T) (msg : T)
      → Within R stream.flush
      → Within R (send stream codec msg)
  unfolding send
  send-Within codec msg flushes = search io_frame depth 14

  reject-Within :
      {A : Type 0} (kind : ErrorKind) (e : Text) (bytes : List ℕ)
      → Within {A = A} R (λ s. (failed kind e, (stream.write_all bytes s).1))
  reject-Within kind e bytes = record { within = (writes bytes).within }

  pub accept-Within :
      ((n : ℕ) → Within R (stream.read_exact n)) → Within R (accept_handshake stream)
  unfolding accept_handshake
  accept-Within exacts = search (io_frame, reject-Within) depth 12
