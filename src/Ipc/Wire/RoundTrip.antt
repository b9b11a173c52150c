-- ===== src/Ipc/Wire/RoundTrip.antt =====
-- A message that is sent is the one that is received, however the stream cuts the header.
use lecoo_control_center.Base.{
  ℕ, zero, suc, ◌-◌, ◌*◌, ◌%◌, ◌^◌, ◌≤◌, ◌<◌, ◌≡◌, refl, sym, ◌∙◌, ap, true, false, List, [], ◌∷◌,
  ◌++◌, ltb, arith,
}
use mathlib.Core.List.{append_assoc, append-nil}
use lecoo_control_center.Base.Lists.{length, length-append}
use lecoo_control_center.Ipc.Wire.{
  IoResult, done, Stream, Codec, io_then, to_le_bytes, from_le_bytes, protocol_version, send, recv,
  read_length,
}

-- What the writing side of a stream does: `outgoing` is what has been written.
pub record IsWriter {S : Type 0} (stream : Stream S) (outgoing : S → List ℕ) : Type 0 where
  pub write_ok : (bytes : List ℕ) (s : S) → (stream.write_all bytes s).0 ≡ done tt
  pub write_adds :
      (bytes : List ℕ) (s : S) → outgoing (stream.write_all bytes s).1 ≡ outgoing s ++ bytes
  pub flush_ok : (s : S) → (stream.flush s).0 ≡ done tt
  pub flush_adds : (s : S) → outgoing (stream.flush s).1 ≡ outgoing s

-- What the reading side does: `incoming` is what has arrived. A read of so many bytes that have
-- arrived gives at least one of them, perhaps fewer than asked for; an exact read gives all.
pub record IsReader {S : Type 0} (stream : Stream S) (incoming : S → List ℕ) : Type 0 where
  pub read_some :
      (x : ℕ) (front back : List ℕ) (s : S)
      → incoming s ≡ (x ∷ front) ++ back
      → (b : ℕ) × (got : List ℕ) × (left : List ℕ) × ((b ∷ got) ++ left ≡ x ∷ front)
        × ((stream.read (length (x ∷ front)) s).0 ≡ done (b ∷ got))
        × (incoming (stream.read (length (x ∷ front)) s).1 ≡ left ++ back)
  pub exact_ok :
      (front back : List ℕ) (s : S)
      → incoming s ≡ front ++ back
      → (stream.read_exact (length front) s).0 ≡ done front
  pub exact_rest :
      (front back : List ℕ) (s : S)
      → incoming s ≡ front ++ back
      → incoming (stream.read_exact (length front) s).1 ≡ back

-- The bytes of a message with a payload.
abbrev pub frame : List ℕ → List ℕ
frame payload = to_le_bytes (length payload % 2 ^ 32) ++ (protocol_version ++ payload)

le_round_trip : (n : ℕ) → n < 2 ^ 32 → from_le_bytes (to_le_bytes n) ≡ n
le_round_trip n p = omega arith

module _ {S : Type 0} (stream : Stream S) (outgoing : S → List ℕ)
    (writer : IsWriter stream outgoing) where
  pub send_ok :
      {T : Type 0} (codec : Codec T) (msg : T) (payload : List ℕ) (s : S)
      → codec.encode msg ≡ done payload
      → (send stream codec msg s).0 ≡ done tt
  unfolding send
  send_ok codec msg payload s e = simp (e, io_then, writer.write_ok, writer.flush_ok)

  pub send_frames :
      {T : Type 0} (codec : Codec T) (msg : T) (payload : List ℕ) (s : S)
      → codec.encode msg ≡ done payload
      → outgoing (send stream codec msg s).1 ≡ outgoing s ++ frame payload
  unfolding send
  send_frames codec msg payload s e =
      simp (e, io_then, writer.write_ok) (simp (writer.flush_adds, writer.write_adds, append_assoc))

module _ {S : Type 0} (stream : Stream S) (incoming : S → List ℕ)
    (reader : IsReader stream incoming) where
  -- The loop collects the rest of the four bytes.
  abbrev Collects : IoResult (List ℕ) × S → List ℕ → List ℕ → Type 0
  Collects r header back = (r.0 ≡ done header) × (incoming r.1 ≡ back)

  read_length-Collects :
      (fuel : ℕ) (len_bytes left header back : List ℕ) (s : S)
      → length header ≡ 4
      → len_bytes ++ left ≡ header
      → length left ≤ fuel
      → incoming s ≡ left ++ back
      → Collects (read_length stream fuel len_bytes s) header back
  unfolding read_length
  read_length-Collects zero len_bytes [] header back s h e p i =
      (ap done (sym (append-nil len_bytes) ∙ e), i)
  read_length-Collects zero len_bytes (x ∷ xs) header back s h e p i = ground arith
  read_length-Collects (suc fuel) len_bytes [] header back s h e p i =
      let same = sym (append-nil len_bytes) ∙ e in rw (ap length same ∙ h) (ap done same, i)
  read_length-Collects (suc fuel) len_bytes (x ∷ xs) header back s h e p i =
      let (b, got, left, cut, read, rest) = reader.read_some x xs back s i in
      let whole = sym (length-append len_bytes (x ∷ xs)) ∙ (ap length e ∙ h) in
      let short : ltb (length len_bytes) 4 ≡ true = ground arith in
      let asked : 4 - length len_bytes ≡ length (x ∷ xs) = omega arith in
      let fewer : length left ≤ fuel = omega (arith, length-append (b ∷ got) left, ap length cut) in
      rw (short, asked, read)
        (read_length-Collects fuel (len_bytes ++ (b ∷ got)) left header back _ h
          (append_assoc len_bytes (b ∷ got) left ∙ (ap (λ ys. len_bytes ++ ys) cut ∙ e)) fewer rest)

  announced :
      (payload : List ℕ)
      → length payload ≤ 5 * 1024 * 1024
      → from_le_bytes (to_le_bytes (length payload % 2 ^ 32)) ≡ length payload
  announced payload p = omega arith

  pub recv-frame :
      {T : Type 0} (codec : Codec T) (msg : T) (used : ℕ) (payload rest : List ℕ) (s : S)
      → codec.decode payload ≡ done (msg, used)
      → length payload ≤ 5 * 1024 * 1024
      → incoming s ≡ frame payload ++ rest
      → ((recv stream codec s).0 ≡ done msg) × (incoming (recv stream codec s).1 ≡ rest)
  unfolding recv
  recv-frame codec msg used payload rest s d p i =
      let header = to_le_bytes (length payload % 2 ^ 32) in
      let (read, left) =
        read_length-Collects 4 [] header header (protocol_version ++ (payload ++ rest)) s refl refl
          (omega arith) i in
      let s1 = (read_length stream 4 [] s).1 in
      let version = reader.exact_ok protocol_version (payload ++ rest) s1 left in
      let after_version = reader.exact_rest protocol_version (payload ++ rest) s1 left in
      let s2 = (stream.read_exact 3 s1).1 in
      let body = reader.exact_ok payload rest s2 after_version in
      let fits : ltb (5 * 1024 * 1024) (length payload) ≡ false = ground arith in
      rw (read, version, announced payload p, fits, body, d)
        (refl, reader.exact_rest payload rest s2 after_version)

module _ {S R : Type 0} (out : Stream S) (outgoing : S → List ℕ) (writer : IsWriter out outgoing)
    (inp : Stream R) (incoming : R → List ℕ) (reader : IsReader inp incoming) where
  -- A message whose payload has at most 5 MiB, sent on a stream that has written nothing yet: the
  -- send succeeds, and where what it wrote has arrived, however the reads cut the header, `recv`
  -- gives the message and leaves exactly the bytes behind it.
  pub recv-send :
      {T : Type 0} (codec : Codec T) (msg : T) (used : ℕ) (payload rest : List ℕ) (s : S) (r : R)
      → codec.encode msg ≡ done payload
      → codec.decode payload ≡ done (msg, used)
      → length payload ≤ 5 * 1024 * 1024
      → outgoing s ≡ []
      → incoming r ≡ outgoing (send out codec msg s).1 ++ rest
      → ((send out codec msg s).0 ≡ done tt)
        × ((recv inp codec r).0 ≡ done msg)
        × (incoming (recv inp codec r).1 ≡ rest)
  recv-send codec msg used payload rest s r enc dec size empty arrived =
      let framed =
        send_frames out outgoing writer codec msg payload s enc
        ∙ ap (λ ys. ys ++ frame payload) empty in
      let got =
        recv-frame inp incoming reader codec msg used payload rest r dec size
          (arrived ∙ ap (λ ys. ys ++ rest) framed) in
      (send_ok out outgoing writer codec msg payload s enc, got.0, got.1)
