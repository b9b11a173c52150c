-- ===== src/TelemetryServer.antt =====
-- The telemetry server's answer to one request: telemetry_server/src/main.rs, and the format of older
-- daemons (ipc/src/structs.rs). The database's lock is held from the first statement to the answer.
pub mod Stored
pub mod Clients
pub mod Schema
use lecoo_control_center.Base.{
  ℕ, ◌*◌, Bool, true, false, Option, none, some, List, [], ◌∷◌, ◌++◌, ltb, ◌&&◌, ◌||◌, not,
  if◌then◌else◌,
}
use lecoo_control_center.Base.Lists.{length}
use lecoo_control_center.Base.Text.{Text, codes, text_eq, hex_digits}
use lecoo_control_center.Base.Action.{
  Action, Outcome, ok, err, panicked, pure, panic as unwind, gets, attempt, ◌>>=◌, ◌>>◌,
}
use lecoo_control_center.Ipc.Settings.{PowerProfile}
use lecoo_control_center.Ipc.Message.{TelemetryData, TelemetryPayload}

pub data TelemetryDataV1 : Type 0 where
  startup : Text → ℕ → Text → Text → TelemetryDataV1
  status : PowerProfile → ℕ × ℕ → ℕ × ℕ → TelemetryDataV1
  panic : Text → TelemetryDataV1

pub record TelemetryPayloadV1 : Type 0 where
  pub id : ℕ
  pub content : TelemetryDataV1

pub data Method : Type 0 where
  get post other : Method

-- What a request holds: its body as read to the end, `none` if that fails.
pub record Request : Type 0 where
  pub method : Method
  pub url : Text
  pub headers : List (Text × Text)
  pub body_length : Option ℕ
  pub body : Option (List ℕ)

-- The statements that the server executes, with their parameters: the version and the body; the raw
-- row's id, the client, the version and the event's fields.
pub data Statement : Type 0 where
  raw_telemetry : Text → List ℕ → Statement
  startup_event : ℕ → Text → Text → Text → Text → Text → Text → Option Text → Statement
  status_event : ℕ → Text → Text → Text → ℕ × ℕ → ℕ × ℕ → Statement
  panic_event : ℕ → Text → Text → Text → Statement

-- The libraries: the database behind its lock, the decoders with a limit of 64 KiB, `{:?}` of a
-- profile, and the comparison of a header's name.
pub record Libraries (S : Type 0) : Type 0 where
  pub lock : Action S (Unit {0})
  pub execute : Statement → Action S (Unit {0})
  pub last_insert_rowid : S → ℕ
  pub decode : List ℕ → Option TelemetryPayload
  pub decode_v1 : List ℕ → Option TelemetryPayloadV1
  pub debug_profile : PowerProfile → Text
  pub equiv : Text → Text → Bool

abbrev pub max_body_size : ℕ
max_body_size = 512 * 1024

-- `0x{:016X}` and `0x{:04X}`
unfoldable pub client_uuid : ℕ → Text
client_uuid id = codes "0x" ++ hex_digits 16 id

unfoldable pub hex_offset : ℕ → Text
hex_offset offset = codes "0x" ++ hex_digits 4 offset

abbrev pub is_get : Method → Bool
is_get Method.get = true
is_get _ = false

abbrev pub is_post : Method → Bool
is_post Method.post = true
is_post _ = false

abbrev pub length_or_zero : Option ℕ → ℕ
length_or_zero none = 0
length_or_zero (some n) = n

module _ {S : Type 0} (lib : Libraries S) where
  abbrev pub find_version : List (Text × Text) → Text
  find_version [] = codes "Unknown"
  find_version ((field, value) ∷ rest) =
      if lib.equiv field (codes "X-Daemon-Version") then value else find_version rest

  abbrev pub event_of : ℕ → Text → Text → TelemetryData → Statement
  event_of raw_id uuid version (TelemetryData.startup firmware offset cpu os motherboard) =
      Statement.startup_event raw_id uuid version firmware (hex_offset offset) cpu os
        (some motherboard)
  event_of raw_id uuid version (TelemetryData.status profile temps fans) =
      Statement.status_event raw_id uuid version (lib.debug_profile profile) temps fans
  event_of raw_id uuid version (TelemetryData.panic error) =
      Statement.panic_event raw_id uuid version error

  abbrev pub event_of_v1 : ℕ → Text → Text → TelemetryDataV1 → Statement
  event_of_v1 raw_id uuid version (TelemetryDataV1.startup firmware offset cpu os) =
      Statement.startup_event raw_id uuid version firmware (hex_offset offset) cpu os none
  event_of_v1 raw_id uuid version (TelemetryDataV1.status profile temps fans) =
      Statement.status_event raw_id uuid version (lib.debug_profile profile) temps fans
  event_of_v1 raw_id uuid version (TelemetryDataV1.panic error) =
      Statement.panic_event raw_id uuid version error

  -- The answer's status after the insertion of an event.
  abbrev pub inserted : Outcome (Unit {0}) → Action S ℕ
  inserted (ok u) = pure 201
  inserted (err e) = pure 500
  inserted panicked = unwind

  abbrev pub insert_event : Statement → Action S ℕ
  insert_event event = do insert_result ← attempt (lib.execute event); inserted insert_result

  -- The match on the second decoder.
  abbrev pub parse_v1 : ℕ → Text → Option TelemetryPayloadV1 → Action S ℕ
  parse_v1 raw_id version none = pure 202
  parse_v1 raw_id version (some payload) =
      insert_event (event_of_v1 raw_id (client_uuid payload.id) version payload.content)

  -- The match on the first decoder.
  abbrev pub parse : ℕ → Text → List ℕ → Option TelemetryPayload → Action S ℕ
  parse raw_id version buffer none = parse_v1 raw_id version (lib.decode_v1 buffer)
  parse raw_id version buffer (some payload) =
      insert_event (event_of raw_id (client_uuid payload.id) version payload.content)

  abbrev pub raw_inserted : Text → List ℕ → Outcome (Unit {0}) → Action S ℕ
  raw_inserted version buffer (ok u) = do
    raw_id ← gets lib.last_insert_rowid
    parse raw_id version buffer (lib.decode buffer)
  raw_inserted version buffer (err e) = pure 500
  raw_inserted version buffer panicked = unwind

  unfoldable pub store : Text → List ℕ → Action S ℕ
  store version buffer = do
    lib.lock
    done ← attempt (lib.execute (Statement.raw_telemetry version buffer))
    raw_inserted version buffer done

  -- The body is read, and then its length is looked at.
  abbrev pub store_body : Text → Option (List ℕ) → Action S ℕ
  store_body version none = pure 400
  store_body version (some buffer) =
      if ltb max_body_size (length buffer) then pure 400 else store version buffer

  -- The status of the answer.
  unfoldable pub answer : Request → Action S ℕ
  answer request =
      if is_get request.method && text_eq request.url (codes "/telemetry/health")
      then pure 200
      else if not (is_post request.method) || not (text_eq request.url (codes "/telemetry"))
      then pure 404
      else if ltb max_body_size (length_or_zero request.body_length)
      then pure 413
      else store_body (find_version request.headers) request.body
