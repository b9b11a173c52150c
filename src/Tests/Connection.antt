-- ===== src/Tests/Connection.antt =====
-- A connection whose client asks for a duty cycle above the limit, again and again, and one over a
-- socket on which a request for a charge limit arrives.
use lecoo_control_center.Base.{ℕ, ◌≡◌, refl, true, List, [], ◌∷◌, ◌++◌, ◌==◌, if◌then◌else◌, arith}
use lecoo_control_center.Base.Text.{codes}
use lecoo_control_center.Base.Lists.{get_or, length}
use lecoo_control_center.Base.Action.{ok}
use lecoo_control_center.Ipc.Settings.{ChargeLimit, FanMode, gpu}
use lecoo_control_center.Ipc.Message.{IpcRequest, IpcResponse}
use lecoo_control_center.Ipc.Wire.{ErrorKind, IoResult, done, failed, Stream, Codec, send, request}
use lecoo_control_center.Ipc.Wire.RoundTrip.{frame}
use lecoo_control_center.Handlers.Requests.{do_work, handle}
use lecoo_control_center.State.{Daemon}
use lecoo_control_center.Connection.{Connected, serve_one, process_ipc_connection}
use lecoo_control_center.Connection.Ends.{connection_ends}
use lecoo_control_center.Connection.Session.{Works, session, session_answers}
use lecoo_control_center.Connection.Answers.{request_gets_answer}
use lecoo_control_center.Tests.Socket.{
  Socket, socket, socket-IsFinite, socket-IsDuplex, other_end, other_end-IsDuplex,
}
use lecoo_control_center.Tests.Bench.{Machine, bench, n155a, started}

abbrev request_codec : Codec IpcRequest
request_codec = record {
  encode = λ req. done (9 ∷ []);
  decode = λ bytes. done (IpcRequest.set_fan_mode gpu (FanMode.custom 230), 1);
}

abbrev response_codec : Codec IpcResponse
response_codec = record {
  encode = λ res. done (1 ∷ []);
  decode = λ bytes. done (IpcResponse.success, 1);
}

-- A client of version 0.3, with a request behind its greeting.
abbrev stranger : Connected Machine Socket
stranger = record {
  daemon = started;
  pipe = record { arrived = 0x4C ∷ 0x43 ∷ 0x43 ∷ 0 ∷ 3 ∷ frame (9 ∷ []); written = [] };
}

-- A greeting and nothing else.
abbrev greeted : Connected Machine Socket
greeted = record {
  daemon = started;
  pipe = record { arrived = 0x4C ∷ 0x43 ∷ 0x43 ∷ 0 ∷ 4 ∷ []; written = [] };
}

connection_ends_example :
    process_ipc_connection bench socket request_codec response_codec n155a 40 greeted
    ≡ process_ipc_connection bench socket request_codec response_codec n155a 6 greeted
connection_ends_example =
    connection_ends bench socket request_codec response_codec n155a (λ s. length s.arrived)
      socket-IsFinite 40 greeted (omega arith)

abbrev limit_80 : IpcRequest
limit_80 = IpcRequest.set_charge_limit ChargeLimit.desk_mode

abbrev limit_codec : Codec IpcRequest
limit_codec = record { encode = λ req. done (9 ∷ []); decode = λ bytes. done (limit_80, 1) }

abbrev asking : Connected Machine Socket
asking = record { daemon = started; pipe = record { arrived = frame (9 ∷ []); written = [] } }

-- The client's end, where the daemon's answer arrives.
abbrev answered : Socket
answered = record { arrived = frame (1 ∷ []); written = [] }

request_gets_answer_example :
    let r = serve_one bench socket limit_codec response_codec n155a asking in
    ((request socket limit_codec response_codec limit_80 answered).0 ≡ done IpcResponse.success)
    × ((request socket limit_codec response_codec limit_80 answered).1.arrived ≡ [])
    × (r.0 ≡ ok true)
    × (r.1.daemon ≡ (do_work bench n155a limit_80 started).1)
    × (r.1.pipe.arrived ≡ [])
unfolding do_work handle lecoo_control_center.Handlers.Requests.set_charge_limit
    lecoo_control_center.Hw.Charge.apply_charge_limit lecoo_control_center.Ec.Device.with_batch
    lecoo_control_center.Ec.Device.batch_write_ram lecoo_control_center.Ec.Device.batch_write_reg
    lecoo_control_center.Handlers.Settings.get_state
    lecoo_control_center.Handlers.Settings.put_state send serve_one
    lecoo_control_center.Ipc.Wire.recv lecoo_control_center.Ipc.Wire.read_length
request_gets_answer_example =
    request_gets_answer bench n155a limit_codec response_codec socket (λ s. s.written)
      (λ s. s.arrived) socket-IsDuplex socket (λ s. s.written) (λ s. s.arrived) socket-IsDuplex
      limit_80 IpcResponse.success (9 ∷ []) (1 ∷ []) [] [] answered asking
      (record { encodes = refl; decodes = refl; fits = omega arith })
      (record { encodes = refl; decodes = refl; fits = omega arith }) refl refl refl refl refl

-- A client of version 0.3.9 has greeted the daemon, and the daemon's answer has arrived.
abbrev outdated : Socket
outdated = record { arrived = 0x4C ∷ 0x43 ∷ 0x43 ∷ 0 ∷ 3 ∷ []; written = [] }

abbrev turned_down : Socket
turned_down = record { arrived = codes "ERR" ++ 0 ∷ 4 ∷ []; written = [] }

abbrev full_charge : IpcRequest
full_charge = IpcRequest.set_charge_limit ChargeLimit.full_capacity

-- Two requests, each as one byte.
abbrev limit_byte : IpcRequest → IoResult (List ℕ)
limit_byte (IpcRequest.set_charge_limit ChargeLimit.desk_mode) = done (9 ∷ [])
limit_byte other = done (8 ∷ [])

abbrev limit_of : List ℕ → IoResult (IpcRequest × ℕ)
limit_of bytes = if get_or bytes 0 0 == 9 then done (limit_80, 1) else done (full_charge, 1)

abbrev limits_codec : Codec IpcRequest
limits_codec = record { encode = limit_byte; decode = limit_of }

abbrev idle_line : Connected Machine Socket
idle_line = record { daemon = started; pipe = record { arrived = []; written = [] } }

abbrev limited_twice : Daemon Machine
limited_twice = (do_work bench n155a full_charge (do_work bench n155a limit_80 started).1).1

session_answers_example :
    let r =
      session bench n155a limits_codec response_codec socket other_end
        (limit_80 ∷ full_charge ∷ [])
        idle_line in
    (r.0 ≡ done IpcResponse.success ∷ done IpcResponse.success ∷ [])
    × (r.1.daemon ≡ limited_twice)
    × ((r.1.pipe.written ≡ []) × (r.1.pipe.arrived ≡ []))
unfolding do_work handle lecoo_control_center.Handlers.Requests.set_charge_limit
    lecoo_control_center.Hw.Charge.apply_charge_limit lecoo_control_center.Ec.Device.with_batch
    lecoo_control_center.Ec.Device.batch_write_ram lecoo_control_center.Ec.Device.batch_write_reg
    lecoo_control_center.Handlers.Settings.get_state
    lecoo_control_center.Handlers.Settings.put_state
session_answers_example =
    session_answers bench n155a limits_codec response_codec socket other_end (λ s. s.written)
      (λ s. s.arrived) socket-IsDuplex other_end-IsDuplex (limit_80 ∷ full_charge ∷ [])
      (IpcResponse.success ∷ IpcResponse.success ∷ []) idle_line limited_twice
      (Works.work refl (Works.work refl Works.idle))
      (
        (9 ∷ [], record { encodes = refl; decodes = refl; fits = omega arith }),
        ((8 ∷ [], record { encodes = refl; decodes = refl; fits = omega arith }), tt),
      )
      (
        (1 ∷ [], record { encodes = refl; decodes = refl; fits = omega arith }),
        ((1 ∷ [], record { encodes = refl; decodes = refl; fits = omega arith }), tt),
      )
      (refl, refl)
