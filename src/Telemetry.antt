-- ===== src/Telemetry.antt =====
-- The daemon's telemetry: daemon/src/telemetry/mod.rs. The worker's thread receives a message, or a
-- timeout after the interval without one, or the end of the channel; a list of what it receives stands
-- for its loop.
pub mod Frame
pub mod Silent
pub mod Status
use lecoo_control_center.Base.{
  ℕ, Bool, true, false, Option, none, some, List, [], ◌∷◌, ◌++◌, if◌then◌else◌,
}
use lecoo_control_center.Base.Action.{
  Action, Outcome, ok, err, panicked, pure, panic, gets, modify, attempt, ignore, ◌>>=◌, ◌>>◌,
}
use lecoo_control_center.State.{Daemon, Statics, on_world}
use lecoo_control_center.Ec.Host.{Host}
use lecoo_control_center.Ec.Device.{EcDevice}
use lecoo_control_center.Ipc.Settings.{PowerProfile}
use lecoo_control_center.Ipc.Message.{TelemetryData, TelemetryPayload}
use lecoo_control_center.Hw.Power.{read_power_profile}
use lecoo_control_center.Hw.Getters.{read_temperatures, read_fans_rpm}

-- The encoder, which may fail, and the request to the telemetry server.
pub record Uplink (W : Type 0) : Type 0 where
  pub encode : TelemetryPayload → Option (List ℕ)
  pub post : List ℕ → Action W (Unit {0})

-- What `recv_timeout` gives.
pub data Received : Type 0 where
  message : TelemetryData → Received
  timeout disconnected : Received

-- A message sent on the channel, if it is set.
abbrev pub queued : TelemetryData → Option (List TelemetryData) → Option (List TelemetryData)
queued content none = none
queued content (some queue) = some (queue ++ content ∷ [])

module _ {W : Type 0} where
  -- `OnceLock::set` with `expect`.
  abbrev pub set_tx : Option (List TelemetryData) → Action (Daemon W) (Unit {0})
  set_tx none = modify (λ s. record s { statics = record (s.statics) { telemetry_tx = some [] } })
  set_tx (some queue) = panic

  unfoldable pub init : Bool → ℕ → Action (Daemon W) (Unit {0})
  init start_enabled client_id = do
    modify (λ s. record s { statics = record (s.statics) { telemetry_enabled = start_enabled } })
    tx ← gets (λ s. s.statics.telemetry_tx)
    set_tx tx
    modify (λ s. record s { statics = record (s.statics) { telemetry_id = client_id } })

  unfoldable pub send : TelemetryData → Action (Daemon W) (Unit {0})
  send content = do
    is_enabled ← gets (λ s. s.statics.telemetry_enabled)
    if is_enabled
        then modify (λ s. record s {
          statics = record (s.statics) { telemetry_tx = queued content s.statics.telemetry_tx };
        })
        else pure tt

module _ {W : Type 0} (h : Host W) (uplink : Uplink W) where
  -- An error of either call is logged and dropped.
  abbrev pub post_bytes : Option (List ℕ) → Action (Daemon W) (Unit {0})
  post_bytes none = pure tt
  post_bytes (some bytes) = ignore (on_world (uplink.post bytes))

  unfoldable pub send_to_server : TelemetryData → Action (Daemon W) (Unit {0})
  send_to_server content = do
    id ← gets (λ s. s.statics.telemetry_id)
    post_bytes (uplink.encode (record { id = id; content = content }))

  -- `if let Ok(a) = …`
  abbrev pub if_read :
      {A : Type 0} → (A → Action (Daemon W) (Unit {0})) → Outcome A → Action (Daemon W) (Unit {0})
  if_read f (ok a) = f a
  if_read f (err e) = pure tt
  if_read f panicked = panic

  abbrev pub send_status : EcDevice → Action (Daemon W) (Unit {0})
  send_status ec = do
    profile ← attempt (read_power_profile h ec)
    if_read
        (λ profile. do
          temps ← attempt (read_temperatures h ec)
          if_read
              (λ temps. do
                fans ← attempt (read_fans_rpm h ec)
                if_read (λ fans. send_to_server (TelemetryData.status profile temps fans)) fans)
              temps)
        profile

  -- `crate::EC.get()`
  abbrev pub send_status_of : Option EcDevice → Action (Daemon W) (Unit {0})
  send_status_of none = pure tt
  send_status_of (some ec) = send_status ec

  -- One receipt of the worker's loop, whether the loop goes on after it.
  unfoldable pub work_once : Option EcDevice → Received → Action (Daemon W) Bool
  work_once ec (Received.message content) = do
    is_enabled ← gets (λ s. s.statics.telemetry_enabled)
    (if is_enabled then send_to_server content else pure tt)
    pure true
  work_once ec Received.timeout = do
    is_enabled ← gets (λ s. s.statics.telemetry_enabled)
    (if is_enabled then send_status_of ec else pure tt)
    pure true
  work_once ec Received.disconnected = pure false

  unfoldable pub worker_loop : Option EcDevice → List Received → Action (Daemon W) (Unit {0})
  worker_loop ec [] = pure tt
  worker_loop ec (r ∷ rest) =
      let later = worker_loop ec rest in
      work_once ec r >>= λ goes_on. if goes_on then later else pure tt
