-- ===== src/Connection/Session.antt =====
-- A client and the daemon's thread on the two ends of one socket, exchanging requests and answers.
use lecoo_control_center.Base.{◌≡◌, refl, sym, subst, ap, ◌∙◌, List, [], ◌∷◌, ◌++◌, map, ℕ}
use mathlib.Core.List.{append-nil}
use lecoo_control_center.Base.Lists.{length}
use lecoo_control_center.Base.Action.{ok}
use lecoo_control_center.State.{Daemon}
use lecoo_control_center.Ec.Host.{Host}
use lecoo_control_center.Ec.Device.{EcDevice}
use lecoo_control_center.Ipc.Message.{IpcRequest, IpcResponse}
use lecoo_control_center.Ipc.Wire.{IoResult, done, Stream, Codec, send, recv}
use lecoo_control_center.Ipc.Wire.RoundTrip.{frame, send_frames, recv-frame}
use lecoo_control_center.Ipc.Wire.Duplex.{IsDuplex, same-IsPreorder}
use lecoo_control_center.Ipc.Wire.Within.{recv-Within, send-Within}
use lecoo_control_center.Handlers.Requests.{do_work}
use lecoo_control_center.Connection.{Connected, serve_one}
use lecoo_control_center.Connection.Answers.{Carries, served}

-- Each message is carried by some payload.
abbrev pub AllCarried : {T : Type 0} → Codec T → List T → Type 0
AllCarried codec [] = Unit
AllCarried codec (m ∷ ms) = ((p : List ℕ) × Carries codec m p) × AllCarried codec ms

module _ {W M : Type 0} (h : Host W) (ec : EcDevice) (requests : Codec IpcRequest)
    (responses : Codec IpcResponse) (near far : Stream M) where
  -- The daemon's work on the requests, one after another, with its answers and the state after them.
  pub data Works : Daemon W → List IpcRequest → List IpcResponse → Daemon W → Type 0 where
    idle : {s : Daemon W} → Works s [] [] s
    work :
        {s u : Daemon W} {req : IpcRequest} {res : IpcResponse} {reqs : List IpcRequest}
        {answers : List IpcResponse}
        → (do_work h ec req s).0 ≡ ok res
        → Works (do_work h ec req s).1 reqs answers u
        → Works s (req ∷ reqs) (res ∷ answers) u

  -- `IpcClient::request`, with the round of the daemon's thread between its halves.
  unfoldable pub exchange : IpcRequest → Connected W M → IoResult IpcResponse × Connected W M
  exchange req t =
      let asked = record t { pipe = (send near requests req t.pipe).1 } in
      let worked = (serve_one h far requests responses ec asked).1 in
      let got = recv near responses worked.pipe in (got.0, record worked { pipe = got.1 })

  unfoldable pub session :
      List IpcRequest → Connected W M → List (IoResult IpcResponse) × Connected W M
  session [] t = ([], t)
  session (req ∷ reqs) t =
      let (got, after) = exchange req t in
      let (later, last) = session reqs after in (got ∷ later, last)

  module _ (up down : M → List ℕ) (near_end : IsDuplex near up down)
      (far_end : IsDuplex far down up) where
    -- Nothing is in flight, in either direction.
    abbrev pub Quiet : Connected W M → Type 0
    Quiet t = (up t.pipe ≡ []) × (down t.pipe ≡ [])

    exchange_answers :
        (req : IpcRequest) (res : IpcResponse) (p q : List ℕ) (t : Connected W M)
        → Carries requests req p
        → Carries responses res q
        → (do_work h ec req t.daemon).0 ≡ ok res
        → Quiet t
        → ((exchange req t).0 ≡ done res)
          × ((exchange req t).1.daemon ≡ (do_work h ec req t.daemon).1)
          × Quiet (exchange req t).1
    unfolding exchange
    exchange_answers req res p q t asks answers works quiet =
        let asked = record t { pipe = (send near requests req t.pipe).1 } in
        let sent =
          send_frames near up near_end.writes requests req p t.pipe asks.encodes
          ∙ ap (λ ys. ys ++ frame p) quiet.0 in
        let silent =
          (send-Within (same-IsPreorder down) near near_end.write_keeps requests req
              near_end.flush_keeps).within
            t.pipe
          ∙ quiet.1 in
        let round =
          served h ec requests responses near up down near_end far down up far_end req res p q []
            asked asks answers works (sent ∙ sym (append-nil (frame p))) silent in
        let worked = (serve_one h far requests responses ec asked).1 in
        let got =
          recv-frame near down near_end.reads responses res (length q) q [] worked.pipe
            answers.decodes answers.fits (round.3 ∙ sym (append-nil (frame q))) in
        let kept =
          (recv-Within (same-IsPreorder up) near near_end.read_keeps near_end.exact_keeps
              responses).within
            worked.pipe in
        (got.0, round.1, (kept ∙ round.2, got.1))

    -- On a socket whose two ends are duplex streams, with nothing in flight: where the daemon's work
    -- answers each of the requests, one after another, and the codec carries each request and each
    -- answer in at most 5 MiB, a client that makes the requests on one connection gets exactly those
    -- answers, in that order. The daemon is left as its work leaves it, and nothing is in flight.
    pub session_answers :
        (reqs : List IpcRequest) (answers : List IpcResponse) (t : Connected W M) (u : Daemon W)
        → Works t.daemon reqs answers u
        → AllCarried requests reqs
        → AllCarried responses answers
        → Quiet t
        → ((session reqs t).0 ≡ map done answers)
          × ((session reqs t).1.daemon ≡ u)
          × Quiet (session reqs t).1
    unfolding session
    session_answers [] [] t u Works.idle asks answers quiet = (refl, refl, quiet)
    session_answers [] (res ∷ rest) t u w asks answers quiet = elim w [ ]
    session_answers (req ∷ reqs) [] t u w asks answers quiet = elim w [ ]
    session_answers (req ∷ reqs) (res ∷ rest) t u (Works.work works later) ((p, ask), asks)
          ((q, answer), answers) quiet =
        let (got, left, still) = exchange_answers req res p q t ask answer works quiet in
        let (all, last, end) =
          session_answers reqs rest (exchange req t).1 u
            (subst (λ s. Works s reqs rest u) (sym left) later) asks answers still in
        (rw (got, all) refl, last, end)
