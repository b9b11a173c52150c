-- ===== src/Tests/Socket.antt =====
-- A socket in memory, and its other end.
use lecoo_control_center.Base.{
  ℕ, zero, suc, ◌+◌, ◌≤◌, ◌≡◌, refl, true, List, [], ◌∷◌, ◌++◌, leb, if◌then◌else◌, arith,
}
use lecoo_control_center.Base.Text.{codes}
use lecoo_control_center.Base.Lists.{length, take, drop, length-append, take-append, drop-append}
use lecoo_control_center.Ipc.Wire.{ErrorKind, IoResult, done, failed, Stream}
use lecoo_control_center.Ipc.Wire.Duplex.{IsDuplex}
use lecoo_control_center.Ipc.Wire.Spends.{IsFinite}

pub record Socket : Type 0 where
  pub arrived : List ℕ
  pub written : List ℕ

abbrev one_byte : Socket → IoResult (List ℕ) × Socket
one_byte s = elim s.arrived [
  | [] ↦ (done [], s)
  | (x ∷ xs) ↦ (done (x ∷ []), record s { arrived = xs })
]

abbrev exactly : ℕ → Socket → IoResult (List ℕ) × Socket
exactly n s =
    if leb n (length s.arrived)
    then (done (take n s.arrived), record s { arrived = drop n s.arrived })
    else (failed ErrorKind.unexpected_eof (codes "failed to fill whole buffer"), s)

abbrev pub socket : Stream Socket
socket = record {
  read = λ n s. one_byte s;
  read_exact = exactly;
  write_all = λ bytes s. (done tt, record s { written = s.written ++ bytes });
  flush = λ s. (done tt, s);
}

enough : (xs ys : List ℕ) → leb (length xs) (length (xs ++ ys)) ≡ true
enough xs ys = let e = length-append xs ys in ground arith

dropped : (n : ℕ) (xs : List ℕ) → n ≤ length xs → length (drop n xs) + n ≤ length xs
dropped zero xs p = omega arith
dropped (suc n) [] p = absurd (omega arith)
dropped (suc n) (x ∷ xs) p = omega (arith, dropped n xs)

byte-le :
    (xs ys : List ℕ)
    → length (one_byte (record { arrived = xs; written = ys })).1.arrived ≤ length xs
byte-le [] ys = omega arith
byte-le (x ∷ xs) ys = omega arith

byte_keeps : (xs ys : List ℕ) → (one_byte (record { arrived = xs; written = ys })).1.written ≡ ys
byte_keeps [] ys = refl
byte_keeps (x ∷ xs) ys = refl

exactly-le : (n : ℕ) (s : Socket) → length (exactly n s).1.arrived ≤ length s.arrived
exactly-le n s = ground (arith, dropped n s.arrived)

exactly_takes :
    (n : ℕ) (bytes : List ℕ) (s : Socket)
    → (exactly n s).0 ≡ done bytes
    → length (exactly n s).1.arrived + n ≤ length s.arrived
exactly_takes n bytes s e = ground (arith, dropped n s.arrived)

exactly_keeps : (n : ℕ) (s : Socket) → (exactly n s).1.written ≡ s.written
exactly_keeps n s = ground arith

pub socket-IsFinite : IsFinite socket (λ s. length s.arrived)
socket-IsFinite = record {
  read_le = λ n. record { within = λ s. byte-le s.arrived s.written };
  exact_le = λ n. record { within = exactly-le n };
  exact_takes = exactly_takes;
  write_le = λ bytes. record { within = λ s. omega arith };
  flush_le = record { within = λ s. omega arith };
}

pub socket-IsDuplex : IsDuplex socket (λ s. s.written) (λ s. s.arrived)
socket-IsDuplex = record {
  writes = record {
    write_ok = λ bytes s. refl;
    write_adds = λ bytes s. refl;
    flush_ok = λ s. refl;
    flush_adds = λ s. refl;
  };
  reads = record {
    read_some = λ x front back s i. (x, [], front, refl, rw i refl, rw i refl);
    exact_ok = λ front back s i. rw (i, enough front back, take-append front back) refl;
    exact_rest = λ front back s i. rw (i, enough front back, drop-append front back) refl;
  };
  read_keeps = λ n. record { within = λ s. byte_keeps s.arrived s.written };
  exact_keeps = λ n. record { within = exactly_keeps n };
  write_keeps = λ bytes. record { within = λ s. refl };
  flush_keeps = record { within = λ s. refl };
}

-- The other end of the same socket: what one end has written has arrived at the other.
abbrev flip : Socket → Socket
flip s = record { arrived = s.written; written = s.arrived }

abbrev flipped : {A : Type 0} → (Socket → IoResult A × Socket) → Socket → IoResult A × Socket
flipped m s = ((m (flip s)).0, flip (m (flip s)).1)

abbrev pub other_end : Stream Socket
other_end = record {
  read = λ n. flipped (socket.read n);
  read_exact = λ n. flipped (socket.read_exact n);
  write_all = λ bytes. flipped (socket.write_all bytes);
  flush = flipped socket.flush;
}

pub other_end-IsDuplex : IsDuplex other_end (λ s. s.arrived) (λ s. s.written)
other_end-IsDuplex = record {
  writes = record {
    write_ok = λ bytes s. refl;
    write_adds = λ bytes s. refl;
    flush_ok = λ s. refl;
    flush_adds = λ s. refl;
  };
  reads = record {
    read_some = λ x front back s. socket-IsDuplex.reads.read_some x front back (flip s);
    exact_ok = λ front back s. socket-IsDuplex.reads.exact_ok front back (flip s);
    exact_rest = λ front back s. socket-IsDuplex.reads.exact_rest front back (flip s);
  };
  read_keeps = λ n. record { within = λ s. (socket-IsDuplex.read_keeps n).within (flip s) };
  exact_keeps = λ n. record { within = λ s. (socket-IsDuplex.exact_keeps n).within (flip s) };
  write_keeps = λ bytes. record { within = λ s. refl };
  flush_keeps = record { within = λ s. refl };
}
