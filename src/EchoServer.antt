-- ===== src/EchoServer.antt =====
-- examples/echo/server.cpp: the echo service and the set-up of its server. What protobuf generates for
-- examples/echo/echo.proto is the parameter `codec`. The flags of the two timeouts are arguments, and the
-- asserts are taken to be compiled in.
use small_rpc.Prelude.{
  ℕ, ◌+◌, ◌*◌, ◌^◌, ◌≤◌, ◌<◌, ◌≡◌, refl, subst, arith, length-append, Bool, true, false, List, [],
  ◌∷◌, ◌++◌, Bytes, codes, length, Option, none, some, Run, returns, fault, ◌>>=◌, ℤ,
}
use small_rpc.Buffer.Contents.{Holds, outgoing}
use small_rpc.DoneGuard.{new_guard, run_done, scope}
use small_rpc.EventLoop.{Epoll}
use small_rpc.Http.Wire.{line, status_line, headers}
use small_rpc.Http.Wire as Http
use small_rpc.PbServer.{
  PbServer, Method, Service, new_server, add_protocol, has_protocol, add_service, add_methods, find,
  eqb_bytes, find_service_method, set_read_timeout_ms, set_write_timeout_ms,
}
use small_rpc.PbServer.Handlers.{World, Task, update_task, data_read_callback}
use small_rpc.PbServer.Serve.{answer_of, data_read_callback-Answered}
use small_rpc.PbServer.ServeHttp.{request_text, data_read_callback-AnsweredHttp}
use small_rpc.Protocol.{Context, ConnType, new_context, ok}
use small_rpc.Protocols.{simple_protocol, http_protocol}
use small_rpc.Simple.Wire.{request_head, response_head}
use small_rpc.Simple.Wire as Simple
use small_rpc.TcpConnection.{TcpConnection, epollout}
use small_rpc.TimeStamp.{TimeStamp}

pub record EchoRequest : Type 0 where
  pub logid : ℕ
  pub message : Bytes

pub record EchoResponse : Type 0 where
  pub logid : ℕ
  pub result : Bytes

-- `ParseFromString` of a request, and `SerializeToString` of a response.
pub record Codec : Type 0 where
  pub parse : Bytes → Option EchoRequest
  pub serialize : EchoResponse → Bytes

-- What `EchoServiceImpl::echo` leaves in the response.
unfoldable pub echo_response : EchoRequest → EchoResponse
echo_response request = record {
  logid = request.logid;
  result = request.message ++ codes " powered by EchoService";
}

-- `EchoServiceImpl::echo` with its guard: the response, and the closures that ran.
unfoldable pub echo : {F : Type 0} → EchoRequest → Option F → EchoResponse × List F
echo request done = (echo_response request, (scope [] (new_guard done)).ran)

-- The method, as the server calls it.
unfoldable pub echo_method : Codec → Method
echo_method codec payload = elim (codec.parse payload) [
  | none ↦ none
  | some request ↦ some (codec.serialize (echo_response request))
]

unfoldable pub echo_service : Codec → Service
echo_service codec = record {
  name = codes "EchoService";
  methods = (codes "echo", echo_method codec) ∷ [];
}

-- `assert` of a registration.
abbrev asserted : Bool × PbServer → Run PbServer
asserted (true, s) = returns s
asserted (false, s) = fault

-- `main` up to `start`.
unfoldable pub set_up : Codec → ℤ → ℤ → Run PbServer
set_up codec read_timeout_ms write_timeout_ms = do
  s1 ← asserted (add_protocol simple_protocol new_server)
  s2 ← asserted (add_protocol http_protocol s1)
  s3 ← asserted (add_service (echo_service codec) s2)
  returns (set_write_timeout_ms write_timeout_ms (set_read_timeout_ms read_timeout_ms s3))

-- A method that is called with a closure runs it once.
pub echo_done :
    {F : Type 0} (request : EchoRequest) (done : F)
    → echo request (some done) ≡ (echo_response request, done ∷ [])
unfolding echo scope new_guard run_done
echo_done request done = refl

-- The server that `main` starts.
abbrev pub IsEchoServer : Codec → PbServer → Type 0
IsEchoServer codec s =
    (s.protocols ≡ simple_protocol ∷ http_protocol ∷ [])
    × (find_service_method (codes "EchoService") (codes "echo") s ≡ some (echo_method codec))

pub set_up-IsEchoServer :
    (codec : Codec) (read_timeout_ms write_timeout_ms : ℤ)
    → (s : PbServer) × (set_up codec read_timeout_ms write_timeout_ms ≡ returns s)
      × (s.read_timeout_ms ≡ read_timeout_ms)
      × (s.write_timeout_ms ≡ write_timeout_ms)
      × IsEchoServer codec s
unfolding set_up new_server add_protocol has_protocol add_service add_methods find eqb_bytes
    find_service_method set_read_timeout_ms set_write_timeout_ms simple_protocol http_protocol
    echo_service
set_up-IsEchoServer codec read_timeout_ms write_timeout_ms = (_, refl, refl, refl, (refl, refl))

-- The protocol that a client chose.
pub data Speaks : Type 0 where
  binary text : Speaks

-- The bytes of a call and of the response to it.
abbrev pub asked : Speaks → Context → Bytes → Bytes
asked binary call rest = request_head call ++ (call.payload ++ rest)
asked text call rest = request_text call rest

abbrev pub reply : Speaks → Context → Bytes → Bytes
reply binary call response = response_head (answer_of call response) ++ response
reply text call response = line status_line (headers (answer_of call response) response)

-- A call of `echo`.
abbrev pub echo_call : ConnType → Bytes → Context
echo_call kind payload = record (new_context ok) {
  conn_type = kind;
  service = codes "EchoService";
  method = codes "echo";
  payload = payload;
}

echo_call-binary :
    (kind : ConnType) (payload : Bytes)
    → length payload < 2 ^ 31
    → Simple.IsSendable (echo_call kind payload)
echo_call-binary kind payload fits = record {
  no_slash = omega arith;
  path_fits = omega arith;
  payload_fits = omega (arith, fits);
}

echo_call-text :
    (kind : ConnType) (payload : Bytes)
    → length payload < 2 ^ 31
    → Http.IsSendable (echo_call kind payload)
echo_call-text kind payload fits = record {
  no_slash = omega arith;
  service_no_space = omega arith;
  method_no_space = omega arith;
  service_no_return = omega arith;
  method_no_return = omega arith;
  line_fits = omega arith;
  payload_fits = fits;
}

method_answers :
    (codec : Codec) (payload : Bytes) (request : EchoRequest)
    → codec.parse payload ≡ some request
    → echo_method codec payload ≡ some (codec.serialize (echo_response request))
unfolding echo_method
method_answers codec payload request parsed = rw (parsed, echo_method) refl

module _ {K : Type 0} (E : Epoll K) where
  -- The connection at the address stays, has exactly the bytes to send, and wants to write, and the update that
  -- tells epoll so waits in its loop behind the functions that were there.
  abbrev pub Replies : ℕ → List Task → Bytes → Run (Option TcpConnection × World K) → Type 0
  Replies address pending bytes run =
      (c' : TcpConnection) × (w' : World K) × (run ≡ returns (some c', w'))
      × (outgoing c'.wbuf ≡ bytes)
      × (c'.channel.event ≡ epollout)
      × (w'.el.funcs ≡ pending ++ update_task address ∷ [])

  echo-Replies :
      (codec : Codec) (speaks : Speaks) (s : PbServer) (kind : ConnType) (payload rest : Bytes)
      (request : EchoRequest) (now : TimeStamp) (c : TcpConnection) (w : World K)
      → IsEchoServer codec s
      → codec.parse payload ≡ some request
      → length (payload ++ rest) < 2 ^ 31
      → length (codec.serialize (echo_response request)) < 2 ^ 32
      → c.proto_idx ≡ 0
      → c.context ≡ none
      → Holds c.rbuf (asked speaks (echo_call kind payload) rest)
      → Holds c.wbuf []
      → c.wbuf.extra_index ≡ 0
      → length c.wbuf.storage < 2 ^ 30
      → c.wbuf.windex + 113 ≤ 2 * length c.wbuf.storage
      → Replies c.address w.el.funcs
          (reply speaks (echo_call kind payload) (codec.serialize (echo_response request)))
          (data_read_callback E s now c w)
  echo-Replies codec binary s kind payload rest request now c w (protocols, known) parsed few short
        start unused arrived empty fresh small room =
      data_read_callback-Answered E s (http_protocol ∷ []) now (echo_call kind payload) rest _
        (echo_method codec) c w protocols start unused
        (echo_call-binary kind payload (omega (arith, few, length-append payload rest))) arrived
        known (method_answers codec payload request parsed) empty fresh small short
        (omega (arith, room))
  echo-Replies codec text s kind payload rest request now c w (protocols, known) parsed few short
        start unused arrived empty fresh small room =
      data_read_callback-AnsweredHttp E s [] now (echo_call kind payload) rest _ (echo_method codec)
        c w protocols start unused
        (echo_call-text kind payload (omega (arith, few, length-append payload rest))) few arrived
        known (method_answers codec payload request parsed) empty fresh small room

  -- Let `s` be the server that `main` has set up, and let a call of `echo`, in the binary protocol or in HTTP,
  -- be there in full on a connection that has not spoken yet and has nothing to send; its payload, which
  -- protobuf parses as `request`, and what follows have fewer than 2 ^ 31 bytes, and the serialized response
  -- fewer than 2 ^ 32. The storage of the write buffer has fewer than 2 ^ 30 bytes, and 113 more fit
  -- twice that storage. Then the connection stays, has exactly the response to send and wants to write, and its
  -- loop was given the function that updates its watch, behind those it had; the response is in the protocol
  -- of the call: the request's `logid`, and its message with " powered by EchoService" behind it.
  pub set_up-data_read_callback :
      (codec : Codec) (read_timeout_ms write_timeout_ms : ℤ) (speaks : Speaks) (s : PbServer)
      (kind : ConnType) (payload rest : Bytes) (request : EchoRequest) (now : TimeStamp)
      (c : TcpConnection) (w : World K)
      → set_up codec read_timeout_ms write_timeout_ms ≡ returns s
      → codec.parse payload ≡ some request
      → length (payload ++ rest) < 2 ^ 31
      → length (codec.serialize (echo_response request)) < 2 ^ 32
      → c.proto_idx ≡ 0
      → c.context ≡ none
      → Holds c.rbuf (asked speaks (echo_call kind payload) rest)
      → Holds c.wbuf []
      → c.wbuf.extra_index ≡ 0
      → length c.wbuf.storage < 2 ^ 30
      → c.wbuf.windex + 113 ≤ 2 * length c.wbuf.storage
      → Replies c.address w.el.funcs
          (reply speaks (echo_call kind payload) (
            codec.serialize (record {
              logid = request.logid;
              result = request.message ++ codes " powered by EchoService";
            })))
          (data_read_callback E s now c w)
  unfolding echo_response
  set_up-data_read_callback codec read_timeout_ms write_timeout_ms speaks s kind payload rest
        request now c w made parsed few short start unused arrived empty fresh small room =
      let (s0, made0, _, _, echoes) = set_up-IsEchoServer codec read_timeout_ms write_timeout_ms in
      let same : s0 ≡ s = cc in
      echo-Replies codec speaks s kind payload rest request now c w
        (subst (IsEchoServer codec) same echoes) parsed few short start unused arrived empty fresh
        small room
