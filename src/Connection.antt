-- ===== src/Connection.antt =====
-- The daemon's side of one connection: the thread of `process_ipc_connection` (daemon/src/main.rs),
-- over the stream that the thread owns. Logging is left out.
pub mod Strangers
pub mod Answers
pub mod Session
pub mod Ends
use lecoo_control_center.Base.{ℕ, zero, suc, Bool, true, false, Option, none, some, if◌then◌else◌}
use lecoo_control_center.Base.Action.{Action, Outcome, ok, pure, panic, ignore, ◌>>=◌, ◌>>◌}
use lecoo_control_center.State.{Daemon}
use lecoo_control_center.Ec.Host.{Host}
use lecoo_control_center.Ec.Device.{EcDevice}
use lecoo_control_center.Ipc.Settings.{CurrentSettings}
use lecoo_control_center.Ipc.Message.{IpcRequest, IpcResponse}
use lecoo_control_center.Ipc.Wire.{
  ErrorKind, IoResult, done, failed, Io, Stream, Codec, accept_handshake, send, recv,
}
use lecoo_control_center.Handlers.Settings.{save}
use lecoo_control_center.Handlers.Requests.{do_work}

-- What the thread works on: the daemon that it shares, and its stream.
pub record Connected (W P : Type 0) : Type 0 where
  pub daemon : Daemon W
  pub pipe : P

abbrev pub on_daemon : {W P A : Type 0} → Action (Daemon W) A → Action (Connected W P) A
on_daemon m s = ((m s.daemon).0, record s { daemon = (m s.daemon).1 })

-- A call of the stream, its result as a value.
abbrev pub on_stream : {W P A : Type 0} → Io P A → Action (Connected W P) (IoResult A)
on_stream m s = (ok (m s.pipe).0, record s { pipe = (m s.pipe).1 })

module _ {W P : Type 0} (h : Host W) (stream : Stream P) (requests : Codec IpcRequest)
    (responses : Codec IpcResponse) (ec : EcDevice) where
  -- `STATE.get().unwrap().try_lock()` and the save under the lock.
  abbrev pub save_stored : Option CurrentSettings → Bool → Action (Daemon W) (Unit {0})
  save_stored none locked = panic
  save_stored (some state) locked = if locked then pure tt else ignore (save h state)

  abbrev pub save_if_unlocked : Action (Daemon W) (Unit {0})
  save_if_unlocked s = save_stored s.statics.settings s.statics.state_locked s

  -- Whether the loop goes on after the answer.
  abbrev pub after_answer : IoResult (Unit {0}) → Action (Connected W P) Bool
  after_answer (done u) = pure true
  after_answer (failed kind e) = pure false

  abbrev pub on_request : IoResult IpcRequest → Action (Connected W P) Bool
  on_request (done req) = do
    res ← on_daemon (do_work h ec req)
    sent ← on_stream (send stream responses res)
    after_answer sent
  on_request (failed ErrorKind.connection_reset e) = do on_daemon save_if_unlocked; pure false
  on_request (failed kind e) = pure false

  -- One round of the loop.
  unfoldable pub serve_one : Action (Connected W P) Bool
  serve_one = do got ← on_stream (recv stream requests); on_request got

  -- So many rounds of the loop, or fewer if it breaks before.
  unfoldable pub serve : ℕ → Action (Connected W P) (Unit {0})
  serve zero = pure tt
  serve (suc rounds) =
      let rest = serve rounds in serve_one >>= λ goes_on. if goes_on then rest else pure tt

  abbrev pub after_handshake : ℕ → IoResult (Unit {0}) → Action (Connected W P) (Unit {0})
  after_handshake rounds (done u) = serve rounds
  after_handshake rounds (failed kind e) = pure tt

  unfoldable pub process_ipc_connection : ℕ → Action (Connected W P) (Unit {0})
  process_ipc_connection rounds = do
    shaken ← on_stream (accept_handshake stream)
    after_handshake rounds shaken
