-- ===== src/Tests/Wire.antt =====
-- A message over a stream that gives one byte at a time.
use lecoo_control_center.Base.{ℕ, ◌≡◌, refl, List, [], ◌∷◌, ◌++◌, arith}
use lecoo_control_center.Base.Lists.{take, drop, take-append, drop-append}
use lecoo_control_center.Base.Text.{codes}
use lecoo_control_center.Ipc.Wire.{ErrorKind, IoResult, done, failed, Stream, Codec, send, recv}
use lecoo_control_center.Ipc.Wire.RoundTrip.{IsWriter, IsReader, frame, recv-send}

abbrev one_byte : List ℕ → IoResult (List ℕ) × List ℕ
one_byte [] = (done [], [])
one_byte (x ∷ xs) = (done (x ∷ []), xs)

-- What is written is what can be read.
abbrev pipe : Stream (List ℕ)
pipe = record {
  read = λ n s. one_byte s;
  read_exact = λ n s. (done (take n s), drop n s);
  write_all = λ bytes s. (done tt, s ++ bytes);
  flush = λ s. (done tt, s);
}

abbrev byte_codec : Codec ℕ
byte_codec = record {
  encode = λ n. done (n ∷ []);
  decode = λ bytes. (elim bytes [
    | [] ↦ failed ErrorKind.other (codes "no byte")
    | (x ∷ xs) ↦ done (x, 1)
  ]);
}

pipe-IsWriter : IsWriter pipe (λ s. s)
pipe-IsWriter = record {
  write_ok = λ bytes s. refl;
  write_adds = λ bytes s. refl;
  flush_ok = λ s. refl;
  flush_adds = λ s. refl;
}

pipe-IsReader : IsReader pipe (λ s. s)
pipe-IsReader = record {
  read_some = λ x front back s i. (x, [], front, refl, rw i refl, rw i refl);
  exact_ok = λ front back s i. rw (i, take-append front back) refl;
  exact_rest = λ front back s i. rw (i, drop-append front back) refl;
}

sent : frame (42 ∷ []) ++ (7 ∷ []) ≡ (send pipe byte_codec 42 []).1 ++ (7 ∷ [])
unfolding send
sent = refl

recv-send_example :
    ((send pipe byte_codec 42 []).0 ≡ done tt)
    × ((recv pipe byte_codec (frame (42 ∷ []) ++ (7 ∷ []))).0 ≡ done 42)
    × ((recv pipe byte_codec (frame (42 ∷ []) ++ (7 ∷ []))).1 ≡ 7 ∷ [])
recv-send_example =
    recv-send pipe (λ s. s) pipe-IsWriter pipe (λ s. s) pipe-IsReader byte_codec 42 1 (42 ∷ [])
      (7 ∷ []) [] (frame (42 ∷ []) ++ (7 ∷ [])) refl refl (ground arith) refl sent
