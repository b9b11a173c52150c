-- ===== src/Connection/Answers.antt =====
-- A request that a client makes is answered with what the daemon's work gives.
use lecoo_control_center.Base.{◌*◌, ◌≤◌, ◌≡◌, refl, ap, ◌∙◌, true, List, [], ◌++◌, ℕ}
use lecoo_control_center.Base.Lists.{length}
use lecoo_control_center.Base.Action.{ok}
use lecoo_control_center.Ec.Host.{Host}
use lecoo_control_center.Ec.Device.{EcDevice}
use lecoo_control_center.Ipc.Message.{IpcRequest, IpcResponse}
use lecoo_control_center.Ipc.Wire.{done, Stream, Codec, send, recv, request}
use lecoo_control_center.Ipc.Wire.RoundTrip.{frame, send_ok, send_frames, recv-frame}
use lecoo_control_center.Ipc.Wire.Duplex.{IsDuplex, same-IsPreorder}
use lecoo_control_center.Ipc.Wire.Within.{recv-Within, send-Within}
use lecoo_control_center.Handlers.Requests.{do_work}
use lecoo_control_center.Connection.{Connected, serve_one}

-- The codec writes the message as the payload, reads it back from there, and the payload fits.
pub record Carries {T : Type 0} (codec : Codec T) (msg : T) (payload : List ℕ) : Type 0 where
  pub encodes : codec.encode msg ≡ done payload
  pub decodes : codec.decode payload ≡ done (msg, length payload)
  pub fits : length payload ≤ 5 * 1024 * 1024

module _ {W S P : Type 0} (h : Host W) (ec : EcDevice) (requests : Codec IpcRequest)
    (responses : Codec IpcResponse) (near : Stream S) (near_out near_in : S → List ℕ)
    (near_end : IsDuplex near near_out near_in) (far : Stream P) (far_out far_in : P → List ℕ)
    (far_end : IsDuplex far far_out far_in) where
  -- What the daemon has received, worked and written, once the request has arrived.
  pub served :
      (req : IpcRequest) (res : IpcResponse) (p q later : List ℕ) (t : Connected W P)
      → Carries requests req p
      → Carries responses res q
      → (do_work h ec req t.daemon).0 ≡ ok res
      → far_in t.pipe ≡ frame p ++ later
      → far_out t.pipe ≡ []
      → let r = serve_one h far requests responses ec t in
        (r.0 ≡ ok true)
        × (r.1.daemon ≡ (do_work h ec req t.daemon).1)
        × (far_in r.1.pipe ≡ later)
        × (far_out r.1.pipe ≡ frame q)
  unfolding serve_one
  served req res p q later t asks answers works arrived silent =
      let got =
        recv-frame far far_in far_end.reads requests req (length p) p later t.pipe asks.decodes
          asks.fits arrived in
      let kept : far_out (recv far requests t.pipe).1 ≡ far_out t.pipe =
        (recv-Within (same-IsPreorder far_out) far far_end.read_keeps far_end.exact_keeps
            requests).within
          t.pipe in
      let left : far_in (send far responses res (recv far requests t.pipe).1).1
          ≡ far_in (recv far requests t.pipe).1 =
        (send-Within (same-IsPreorder far_in) far far_end.write_keeps responses res
            far_end.flush_keeps).within
          (recv far requests t.pipe).1 in
      let sent =
        send_ok far far_out far_end.writes responses res q (recv far requests t.pipe).1
          answers.encodes in
      let framed =
        send_frames far far_out far_end.writes responses res q (recv far requests t.pipe).1
          answers.encodes in
      rw (got.0, works, sent)
        (refl, refl, left ∙ got.1, framed ∙ ap (λ ys. ys ++ frame q) (kept ∙ silent))

  -- A client's request over the wire, near and far end each a duplex stream that has written nothing
  -- yet, the codec carrying the request and its answer in at most 5 MiB: where what the client writes
  -- has arrived at the daemon, whose work answers the request, and what the daemon's round then
  -- writes arrives at the client, the client's call gives that answer. The daemon is left as its work
  -- leaves it, the connection goes on, and on both ends exactly the later bytes are left to read.
  pub request_gets_answer :
      (req : IpcRequest) (res : IpcResponse) (p q later behind : List ℕ) (c : S) (t : Connected W P)
      → Carries requests req p
      → Carries responses res q
      → (do_work h ec req t.daemon).0 ≡ ok res
      → near_out c ≡ []
      → far_out t.pipe ≡ []
      → far_in t.pipe ≡ near_out (send near requests req c).1 ++ later
      → near_in (send near requests req c).1
        ≡ far_out (serve_one h far requests responses ec t).1.pipe ++ behind
      → let r = serve_one h far requests responses ec t in
        ((request near requests responses req c).0 ≡ done res)
        × (near_in (request near requests responses req c).1 ≡ behind)
        × (r.0 ≡ ok true)
        × (r.1.daemon ≡ (do_work h ec req t.daemon).1)
        × (far_in r.1.pipe ≡ later)
  unfolding request
  request_gets_answer req res p q later behind c t asks answers works quiet silent arrives returns =
      let framed =
        send_frames near near_out near_end.writes requests req p c asks.encodes
        ∙ ap (λ ys. ys ++ frame p) quiet in
      let round =
        served req res p q later t asks answers works (arrives ∙ ap (λ ys. ys ++ later) framed)
          silent in
      let sent = send_ok near near_out near_end.writes requests req p c asks.encodes in
      let got =
        recv-frame near near_in near_end.reads responses res (length q) q behind
          (send near requests req c).1 answers.decodes answers.fits
          (returns ∙ ap (λ ys. ys ++ behind) round.3) in
      (rw sent got.0, rw sent got.1, round.0, round.1, round.2)
