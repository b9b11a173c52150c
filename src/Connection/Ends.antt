-- ===== src/Connection/Ends.antt =====
-- A connection ends: a client that sends only so many bytes is served in at most as many rounds.
use lecoo_control_center.Base.{
  ℕ, zero, suc, ◌≤◌, ◌<◌, ◌≡◌, refl, Bool, true, false, if◌then◌else◌, arith,
}
use lecoo_control_center.Base.Action.{Outcome, ok, err, panicked, pure, proceed}
use lecoo_control_center.Ec.Host.{Host}
use lecoo_control_center.Ec.Device.{EcDevice}
use lecoo_control_center.Ipc.Message.{IpcRequest, IpcResponse}
use lecoo_control_center.Ipc.Wire.{
  ErrorKind, IoResult, done, failed, Stream, Codec, accept_handshake, send, recv,
}
use lecoo_control_center.Ipc.Wire.Spends.{IsFinite, Took, recv-Took, send-AtMost, accept-AtMost}
use lecoo_control_center.Handlers.Requests.{do_work}
use lecoo_control_center.Connection.{
  Connected, on_stream, after_answer, on_request, save_if_unlocked, serve_one, serve,
  after_handshake, process_ipc_connection,
}

module _ {W P : Type 0} (h : Host W) (stream : Stream P) (requests : Codec IpcRequest)
    (responses : Codec IpcResponse) (ec : EcDevice) (left : P → ℕ)
    (finite : IsFinite stream left) where
  -- If the loop goes on, fewer bytes can still arrive.
  abbrev Goes : Outcome Bool × Connected W P → ℕ → Type 0
  Goes (ok true, t) n = left t.pipe < n
  Goes (ok false, t) n = Unit
  Goes (err e, t) n = Unit
  Goes (panicked, t) n = Unit

  dropped-Goes :
      (o : Outcome (Unit {0})) (t : Connected W P) (n : ℕ) → Goes (proceed o (λ _. pure false) t) n
  dropped-Goes (ok u) t n = tt
  dropped-Goes (err e) t n = tt
  dropped-Goes panicked t n = tt

  answer-Goes :
      (r : IoResult (Unit {0})) (t : Connected W P) (n : ℕ)
      → left t.pipe < n
      → Goes (after_answer h stream requests responses ec r t) n
  answer-Goes (done u) t n p = p
  answer-Goes (failed kind e) t n p = tt

  respond-Goes :
      (o : Outcome IpcResponse) (t : Connected W P) (n : ℕ)
      → left t.pipe < n
      → Goes
          (proceed o
            (λ res u.
              proceed
                (on_stream (send stream responses res) u).0
                (after_answer h stream requests responses ec)
                (on_stream (send stream responses res) u).1)
            t)
          n
  respond-Goes (ok res) t n p =
      let q : left (send stream responses res t.pipe).1 ≤ left t.pipe =
        (send-AtMost stream left finite responses res).within t.pipe in
      answer-Goes (send stream responses res t.pipe).0 _ n (omega arith)
  respond-Goes (err e) t n p = tt
  respond-Goes panicked t n p = tt

  request-Goes :
      (r : IoResult IpcRequest) (t : Connected W P) (n : ℕ)
      → Took left (r, t.pipe) n
      → Goes (on_request h stream requests responses ec r t) n
  request-Goes (done req) t n p =
      respond-Goes (do_work h ec req t.daemon).0
        (record t { daemon = (do_work h ec req t.daemon).1 }) n p
  request-Goes (failed ErrorKind.connection_reset e) t n p =
      dropped-Goes (save_if_unlocked h stream requests responses ec t.daemon).0 _ n
  request-Goes (failed ErrorKind.unexpected_eof e) t n p = tt
  request-Goes (failed ErrorKind.invalid_data e) t n p = tt
  request-Goes (failed ErrorKind.connection_refused e) t n p = tt
  request-Goes (failed ErrorKind.other e) t n p = tt

  serve_one-Goes :
      (s : Connected W P) → Goes (serve_one h stream requests responses ec s) (left s.pipe)
  unfolding serve_one
  serve_one-Goes s =
      request-Goes (recv stream requests s.pipe).0
        (record s { pipe = (recv stream requests s.pipe).1 }) (left s.pipe)
        (recv-Took stream left finite requests s.pipe)

  -- More rounds than bytes: the loop has ended before.
  serve_ends :
      (n m : ℕ) (s : Connected W P)
      → left s.pipe < n
      → n ≤ m
      → serve h stream requests responses ec m s ≡ serve h stream requests responses ec n s
  unfolding serve
  serve_ends zero m s p q = absurd (omega arith)
  serve_ends (suc n) zero s p q = absurd (omega arith)
  serve_ends (suc n) (suc m) s p q =
      split (serve_one h stream requests responses ec s).0
        (serve_one h stream requests responses ec s).1 (serve_one-Goes s)
        (λ t lt. serve_ends n m t lt (omega arith))
    where
      split :
          (o : Outcome Bool) (t : Connected W P)
          → Goes (o, t) (left s.pipe)
          → ((t : Connected W P)
              → left t.pipe < n
              → serve h stream requests responses ec m t ≡ serve h stream requests responses ec n t)
          → proceed o
              (λ goes_on. if goes_on then serve h stream requests responses ec m else pure tt)
              t
            ≡ proceed o
                (λ goes_on. if goes_on then serve h stream requests responses ec n else pure tt)
                t
      split (ok true) t g again = again t (omega arith)
      split (ok false) t g again = refl
      split (err e) t g again = refl
      split panicked t g again = refl

  shaken_ends :
      (r : IoResult (Unit {0})) (n m : ℕ) (t : Connected W P)
      → left t.pipe < n
      → n ≤ m
      → after_handshake h stream requests responses ec m r t
        ≡ after_handshake h stream requests responses ec n r t
  shaken_ends (done u) n m t p q = serve_ends n m t p q
  shaken_ends (failed kind e) n m t p q = refl

  -- On any host, where no more than so many bytes can still arrive from the client: the connection
  -- ends, by an error, a hangup or a panic, within that many rounds and one. Whatever further rounds
  -- it is given, it is left as it was, with the same outcome.
  pub connection_ends :
      (rounds : ℕ) (s : Connected W P)
      → left s.pipe < rounds
      → process_ipc_connection h stream requests responses ec rounds s
        ≡ process_ipc_connection h stream requests responses ec (suc (left s.pipe)) s
  unfolding process_ipc_connection
  connection_ends rounds s p =
      let q : left (accept_handshake stream s.pipe).1 ≤ left s.pipe =
        (accept-AtMost stream left finite).within s.pipe in
      shaken_ends (accept_handshake stream s.pipe).0 (suc (left s.pipe)) rounds
        (record s { pipe = (accept_handshake stream s.pipe).1 }) (omega arith) (omega arith)
