-- ===== src/Ipc/Wire.antt =====
-- `IpcConnection` (ipc/src/lib.rs) and `IpcClient` (ipc/src/client.rs): the handshake, and one
-- message as a frame of length, version and payload. The stream and bincode are parameters.
pub mod RoundTrip
pub mod Handshake
pub mod Within
pub mod Spends
pub mod Duplex
pub mod Meets
use lecoo_control_center.Base.{
  ℕ, zero, suc, ◌+◌, ◌-◌, ◌*◌, ◌/◌, ◌%◌, ◌^◌, Bool, true, false, ◌&&◌, ◌||◌, not, List, [], ◌∷◌,
  ◌++◌, ltb, ◌==◌, if◌then◌else◌,
}
use lecoo_control_center.Base.Text.{Text, codes, decimal}
use lecoo_control_center.Base.Lists.{length, get_or, take}

-- The kinds of `io::Error` that the code makes; `other` is any that the stream makes.
pub data ErrorKind : Type 0 where
  connection_reset unexpected_eof invalid_data connection_refused other : ErrorKind

pub data IoResult (A : Type 0) : Type 0 where
  done : A → IoResult A
  failed : ErrorKind → Text → IoResult A

abbrev pub Io : Type 0 → Type 0 → Type 0
Io S A = S → IoResult A × S

abbrev pub io_pure : {S A : Type 0} → A → Io S A
io_pure a s = (done a, s)

abbrev pub io_fail : {S A : Type 0} → ErrorKind → Text → Io S A
io_fail kind text s = (failed kind text, s)

-- `?` on an `io::Result`, and the rest of the function.
abbrev pub io_then : {S A B : Type 0} → IoResult A → (A → Io S B) → Io S B
io_then (done a) f s = f a s
io_then (failed kind text) f s = (failed kind text, s)

infixl 5 ◌>>>=◌
abbrev pub ◌>>>=◌ : {S A B : Type 0} → Io S A → (A → Io S B) → Io S B
◌>>>=◌ m f s = io_then (m s).0 f (m s).1

-- The calls of `Read` and `Write` on the socket: `read` and `read_exact` of so many bytes.
pub record Stream (S : Type 0) : Type 0 where
  pub read : ℕ → Io S (List ℕ)
  pub read_exact : ℕ → Io S (List ℕ)
  pub write_all : List ℕ → Io S (Unit {0})
  pub flush : Io S (Unit {0})

-- bincode on one type: a failure has a text, a decoded value comes with the bytes it took.
pub record Codec (T : Type 0) : Type 0 where
  pub encode : T → IoResult (List ℕ)
  pub decode : List ℕ → IoResult (T × ℕ)

-- `IPC_PROTOCOL_VERSION` of the daemon.
abbrev pub protocol_version : List ℕ
protocol_version = 0 ∷ 4 ∷ 0 ∷ []

-- `u32::to_le_bytes` and `u32::from_le_bytes`
abbrev pub to_le_bytes : ℕ → List ℕ
to_le_bytes n = n % 256 ∷ n / 256 % 256 ∷ n / 65536 % 256 ∷ n / 16777216 % 256 ∷ []

abbrev pub from_le_bytes : List ℕ → ℕ
from_le_bytes bytes =
    get_or bytes 0 0
    + get_or bytes 1 0 * 256
    + get_or bytes 2 0 * 65536
    + get_or bytes 3 0 * 16777216

-- `map_err(|e| io::Error::new(InvalidData, e))`
abbrev pub or_invalid : {S A : Type 0} → IoResult A → Io S A
or_invalid (done a) = io_pure a
or_invalid (failed kind text) = io_fail ErrorKind.invalid_data text

-- `v{major}.{minor}` of a version.
abbrev pub dotted : ℕ → ℕ → Text
dotted major minor = codes "v" ++ (decimal major ++ (codes "." ++ decimal minor))

abbrev pub mismatch_text : ℕ → ℕ → Text
mismatch_text major minor =
    codes "Version mismatch. Client: "
    ++ (dotted major minor
        ++ (codes ", Server: "
            ++ dotted (get_or protocol_version 0 0) (get_or protocol_version 1 0)))

abbrev pub rejected_text : List ℕ → ℕ → ℕ → Text
rejected_text version major minor =
    codes "Daemon rejected connection: Version mismatch! Daemon is "
    ++ (dotted major minor
        ++ (codes ", Client is "
            ++ (dotted (get_or version 0 0) (get_or version 1 0)
                ++ (codes "." ++ (decimal (get_or version 2 0) ++ codes ". Please update.")))))

-- `&bytes[0..3] == magic`
abbrev pub is_prefix : Text → List ℕ → Bool
is_prefix magic bytes =
    (get_or bytes 0 0 == get_or magic 0 0)
    && (get_or bytes 1 0 == get_or magic 1 0)
    && (get_or bytes 2 0 == get_or magic 2 0)

module _ {S : Type 0} (stream : Stream S) where
  unfoldable pub send : {T : Type 0} → Codec T → T → Io S (Unit {0})
  send codec msg = or_invalid (codec.encode msg) >>>= λ payload.
      stream.write_all (to_le_bytes (length payload % 2 ^ 32)) >>>= λ _.
      stream.write_all protocol_version >>>= λ _. stream.write_all payload >>>= λ _. stream.flush

  -- What a read of no byte means, after so many.
  abbrev pub hung_up : {A : Type 0} → ℕ → Io S A
  hung_up bytes_read =
      if bytes_read == 0
      then io_fail ErrorKind.connection_reset (codes "Connection reset by peer")
      else io_fail ErrorKind.unexpected_eof (codes "Connection dropped while reading")

  -- One round of the loop that collects the four bytes of the length.
  abbrev pub collect : (List ℕ → Io S (List ℕ)) → List ℕ → List ℕ → Io S (List ℕ)
  collect again len_bytes [] = hung_up (length len_bytes)
  collect again len_bytes (b ∷ bs) = again (len_bytes ++ (b ∷ bs))

  -- The loop; every round that goes on has read a byte, so four rounds are enough.
  unfoldable pub read_length : ℕ → List ℕ → Io S (List ℕ)
  read_length zero len_bytes = io_pure len_bytes
  read_length (suc fuel) len_bytes =
      let again = read_length fuel in
      if ltb (length len_bytes) 4
      then stream.read (4 - length len_bytes) >>>= collect again len_bytes
      else io_pure len_bytes

  unfoldable pub recv : {T : Type 0} → Codec T → Io S T
  recv codec = read_length 4 [] >>>= λ len_bytes.
      let len = from_le_bytes len_bytes in
      stream.read_exact 3 >>>= λ msg_version.
      if not (get_or msg_version 0 0 == get_or protocol_version 0 0)
        || not (get_or msg_version 1 0 == get_or protocol_version 1 0)
      then io_fail ErrorKind.invalid_data (codes "IPC protocol version mismatch")
      else if ltb (5 * 1024 * 1024) len
      then io_fail ErrorKind.invalid_data (codes "IPC payload too large")
      else stream.read_exact len >>>= λ payload.
          or_invalid (codec.decode payload) >>>= λ got. io_pure got.0

  -- `accept_handshake`, the daemon's side.
  unfoldable pub accept_handshake : Io S (Unit {0})
  accept_handshake = stream.read_exact 5 >>>= λ req.
      let client_major_ver = get_or req 3 0 in
      let client_minor_ver = get_or req 4 0 in
      if not (is_prefix (codes "LCC") req)
      then io_fail ErrorKind.invalid_data (codes "Invalid magic bytes")
      else if not (client_major_ver == get_or protocol_version 0 0)
          || not (client_minor_ver == get_or protocol_version 1 0)
      then (λ s. (
        failed ErrorKind.invalid_data (mismatch_text client_major_ver client_minor_ver),
        (stream.write_all (codes "ERR" ++ take 2 protocol_version) s).1,
      ))
      else stream.write_all (codes "OKK" ++ take 2 protocol_version)

  -- The handshake of `IpcClient::connect`, once the socket is open; the daemon's version. The
  -- client has the `IPC_PROTOCOL_VERSION` of the library that it is built with.
  unfoldable pub shake_hands : List ℕ → Io S (ℕ × ℕ)
  shake_hands version = stream.write_all (codes "LCC" ++ take 2 version) >>>= λ _.
      stream.read_exact 5 >>>= λ resp.
      let daemon_major_ver = get_or resp 3 0 in
      let daemon_minor_ver = get_or resp 4 0 in
      if is_prefix (codes "ERR") resp
      then io_fail ErrorKind.connection_refused
          (rejected_text version daemon_major_ver daemon_minor_ver)
      else if not (is_prefix (codes "OKK") resp)
      then io_fail ErrorKind.invalid_data (codes "Invalid IPC handshake")
      else io_pure (daemon_major_ver, daemon_minor_ver)

  -- `IpcClient::request`
  unfoldable pub request : {Req Res : Type 0} → Codec Req → Codec Res → Req → Io S Res
  request req_codec res_codec req = send req_codec req >>>= λ _. recv res_codec
