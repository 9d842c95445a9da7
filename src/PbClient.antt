-- ===== src/PbClient.antt =====
-- net/pb_client.h, net/pb_client.cpp, net/pb_controller.h: a client's connection, its session and its
-- calls. protobuf is a parameter: a request is its serialized bytes, and what is handed to the response's
-- `ParseFromString` is recorded, whose answer the code ignores. A closure is recorded when it runs;
-- one that calls the client again is left out.
pub mod Waiting
pub mod Session
pub mod Call
pub mod CallHttp
pub mod Done
use small_rpc.Prelude.{
  ℕ, ◌+◌, ◌^◌, Bool, true, false, ◌==◌, ◌&&◌, ◌||◌, not, ltb, if◌then◌else◌, List, [], ◌∷◌, ◌++◌,
  length, Bytes, Option, none, some, Run, returns, fault, out_of_fuel, ◌>>=◌,
}
use small_rpc.Buffer.{Buffer, clear, view_str, readable, extraable}
use small_rpc.Buffer.Socket.{Answer, Arrival, read_fd, write_fd}
use small_rpc.EventLoop.{Channel, Epoll, EventLoop, update_channel, add_func}
use small_rpc.Protocol.{
  Context, ConnType, short, ParseProtocolStatus, success, error, no_enough_data,
  try_another_protocol, part_success,
}
use small_rpc.Protocols.{
  AnyContext, base_of, set_base, Outcome, Protocol, parse_response, pack_request,
}
use small_rpc.TcpConnection.{
  TcpConnection, Callback, Callbacks, new_connection, set_event, epollin, epollout,
}
use small_rpc.TimeStamp.{TimeStamp}

-- `PbController`: `Failed` and `IsCanceled` are constant, and the other calls do nothing.
pub record PbController : Type 0 where
  pub conn_type : ConnType

unfoldable pub new_controller : PbController
new_controller = record { conn_type = short }

unfoldable pub set_conn_type : ConnType → PbController → PbController
set_conn_type t c = record c { conn_type = t }

-- `PbSession`; `D` stands for `google::protobuf::Closure*`.
module _ (D : Type 0) where
  pub record PbSession : Type 0 where
    pub done : Option D
    pub read_response_done : Bool

-- The function that a client gives to its loop: `update_channel` of the client at an address.
pub data ClientTask : Type 0 where
  update_client : ℕ → ClientTask

-- The fields that a `PbClient` adds to its connection, and the program around it: the kernel, the loop,
-- the payloads handed to responses and the closures run, both in order.
module _ (K D : Type 0) where
  pub record PbClient : Type 0 where
    pub protocol : Option Protocol
    pub session : Option (PbSession D)
    pub has_loop : Bool
    pub kernel : K
    pub el : EventLoop ClientTask
    pub received : List Bytes
    pub ran : List D

-- The answer of `::connect`: done, `EINPROGRESS`, `ETIMEDOUT` or `ECONNREFUSED`, or another error.
pub data Connect : Type 0 where
  connected_now : Connect
  in_progress : Connect
  refused : Connect
  other_error : Connect

-- The context of a call.
abbrev pub call_base : PbController → Bytes → Bytes → Bytes → Context → Context
call_base cntl service method payload base = record base {
  conn_type = cntl.conn_type;
  service = service;
  method = method;
  payload = payload;
}

-- The loop that writes, with the answers of the socket, two for each round; out of fuel where they
-- are used up.
unfoldable pub write_all : List (Answer × Answer) → Buffer → Run Buffer
write_all [] b = if readable b == 0 && extraable b == 0 then returns b else out_of_fuel
write_all ((first, second) ∷ answers) b = elim (readable b == 0 && extraable b == 0) [
  | true ↦ returns b
  | false ↦ write_fd b first second >>= λ r. write_all answers r.buffer
]

unfoldable pub is_async {ℓ} : {D : Type ℓ} → Option D → Bool → Bool
is_async none has_loop = false
is_async (some d) has_loop = has_loop

abbrev pub uint32_max : ℕ
uint32_max = 4294967295

module _ {K D : Type 0} (E : Epoll K) where
  -- `_el->update_channel(this)`. Where `_el` is null the call reads nothing of it unless epoll has to be
  -- told something.
  unfoldable pub tell_loop : TcpConnection → PbClient K D → Run (TcpConnection × PbClient K D)
  tell_loop c w =
      if w.has_loop
      then (update_channel E c.channel w.kernel >>= λ r.
          returns (record c { channel = r.0 }, record w { kernel = r.1 }))
      else if c.channel.sevent == c.channel.event
      then returns (c, w)
      else fault

  abbrev pub stay : Run (TcpConnection × PbClient K D) → Run (Option TcpConnection × PbClient K D)
  stay r = r >>= λ (c, w). returns (some c, w)

  -- `PbClient(el, addr, port)`
  unfoldable pub new_client :
      ℕ → ℕ → TimeStamp → Connect → PbClient K D → Run (TcpConnection × PbClient K D)
  new_client address fd now answer before =
      let c = new_connection address fd now false in
      let w : PbClient K D = record before { protocol = none; session = none } in
      elim answer [
        | connected_now ↦ returns (record c { connected = true }, w)
        | in_progress ↦
            if w.has_loop
            then returns
                (set_event epollout c, record w { el = add_func (update_client address) w.el })
            else fault
        | refused ↦ if w.has_loop then fault else returns (c, w)
        | other_error ↦ fault
      ]

  -- `set_protocol`, which answers `true`.
  unfoldable pub set_protocol : Option Protocol → PbClient K D → PbClient K D
  set_protocol p w = record w { protocol = p }

  -- `client_conn_callback`, with the error that `::getsockopt` reads, or `none` where it fails.
  unfoldable pub client_conn_callback : Option ℕ → Callback (PbClient K D)
  client_conn_callback none c w = fault
  client_conn_callback (some so_error) c w =
      stay (tell_loop (set_event 0 (if so_error == 0 then record c { connected = true } else c)) w)

  unfoldable pub close_callback : Callback (PbClient K D)
  close_callback c w = stay (tell_loop (set_event 0 c) w)

  unfoldable pub write_complete_callback : Callback (PbClient K D)
  write_complete_callback c w = stay (tell_loop (set_event epollin c) w)

  -- The end of a session: its closure runs, and context and session are gone.
  unfoldable pub finish : PbSession D → Callback (PbClient K D)
  finish session c w = elim session.done [
    | none ↦ close_callback c w
    | some d ↦
        close_callback (record c { context = none })
          (record w { session = none; ran = w.ran ++ d ∷ [] })
  ]

  -- `response_callback`
  unfoldable pub response_callback : Callback (PbClient K D)
  response_callback c w = elim c.context [
    | none ↦ fault
    | some ctx ↦ elim w.session [
      | none ↦ fault
      | some session ↦ view_str (base_of ctx).payload_view c.rbuf >>= λ payload.
          finish session c (record w { received = w.received ++ payload ∷ [] })
    ]
  ]

  -- `_session->_read_response_done = true`
  unfoldable pub mark_done : Callback (PbClient K D)
  mark_done c w = elim w.session [
    | none ↦ fault
    | some session ↦
        response_callback c
          (record w { session = some (record session { read_response_done = true }) })
  ]

  unfoldable pub after_parse : ParseProtocolStatus → Callback (PbClient K D)
  after_parse success c w = mark_done c w
  after_parse error c w = returns (some c, w)
  after_parse no_enough_data c w = returns (some c, w)
  after_parse try_another_protocol c w = returns (some c, w)
  after_parse part_success c w = returns (some c, w)

  -- `data_read_callback`
  unfoldable pub data_read_callback : Callback (PbClient K D)
  data_read_callback c w = elim c.context [
    | none ↦ fault
    | some ctx ↦ parse_response ctx c.rbuf >>= λ o.
        after_parse o.status (record c { context = o.slot; rbuf = o.rest }) w
  ]

  -- What an asynchronous client's constructor sets.
  unfoldable pub client_callbacks : Option ℕ → Callbacks (PbClient K D)
  client_callbacks so_error = record {
    client_conn = some (client_conn_callback so_error);
    data_read = some data_read_callback;
    write_complete = some write_complete_callback;
    on_close = some close_callback;
  }

  -- A new session, and the request in the write buffer; `true` where the payload is not too long.
  unfoldable pub start_with :
      Option Protocol
      → PbController
      → Bytes
      → Bytes
      → Bytes
      → Option D
      → TcpConnection
      → PbClient K D
      → Run (Bool × TcpConnection × PbClient K D)
  start_with none cntl service method payload closure c w = fault
  start_with (some p) cntl service method payload closure c w =
      let fresh = p.new_context in
      let ctx = set_base fresh (call_base cntl service method payload (base_of fresh)) in
      let w' = record w {
        session = some (record { done = closure; read_response_done = false });
      } in
      let c' = record c { rbuf = clear c.rbuf; wbuf = clear c.wbuf; context = some ctx } in
      if ltb uint32_max (length payload)
      then returns (false, c', w')
      else pack_request ctx (clear c.wbuf) >>= λ wbuf. returns (true, record c' { wbuf = wbuf }, w')

  -- `CallMethod` up to its request in the write buffer.
  unfoldable pub start_call :
      PbController
      → Bytes
      → Bytes
      → Bytes
      → Option D
      → TcpConnection
      → PbClient K D
      → Run (Bool × TcpConnection × PbClient K D)
  start_call cntl service method payload closure c w =
      start_with w.protocol cntl service method payload closure c w

  unfoldable pub session_done : PbClient K D → Run Bool
  session_done w = elim w.session [
    | none ↦ fault
    | some session ↦ returns session.read_response_done
  ]

  -- One round of the loop that reads. The callback never deletes the client.
  unfoldable pub read_once :
      Arrival → TcpConnection → PbClient K D → Run (TcpConnection × PbClient K D)
  read_once arrival c w = read_fd c.rbuf arrival >>= λ r.
      data_read_callback (record c { rbuf = r.buffer }) w >>= λ (kept, w'). elim kept [
        | none ↦ fault
        | some c' ↦ returns (c', w')
      ]

  -- The loop that reads, with what arrives in each round; out of fuel where that is used up.
  unfoldable pub read_all :
      List Arrival → TcpConnection → PbClient K D → Run (TcpConnection × PbClient K D)
  read_all [] c w = session_done w >>= λ ready. if ready then returns (c, w) else out_of_fuel
  read_all (arrival ∷ arrivals) c w = session_done w >>= λ ready. elim ready [
    | true ↦ returns (c, w)
    | false ↦ read_once arrival c w >>= λ (c', w'). read_all arrivals c' w'
  ]

  unfoldable pub sync_call :
      List (Answer × Answer)
      → List Arrival
      → TcpConnection
      → PbClient K D
      → Run (TcpConnection × PbClient K D)
  sync_call answers arrivals c w = do
    wbuf ← write_all answers c.wbuf
    (c', w') ← read_all arrivals (record c { wbuf = wbuf }) w
    returns (record c' { context = none }, record w' { session = none })

  -- What follows once the request is packed: an asynchronous call leaves it to the loop.
  unfoldable pub send_call :
      Option D
      → List (Answer × Answer)
      → List Arrival
      → TcpConnection
      → PbClient K D
      → Run (TcpConnection × PbClient K D)
  send_call closure answers arrivals c w =
      if is_async closure w.has_loop
      then returns (set_event epollout c, record w { el = add_func (update_client c.address) w.el })
      else sync_call answers arrivals c w

  -- `CallMethod`, with what the socket answers a synchronous call.
  unfoldable pub call_method :
      PbController
      → Bytes
      → Bytes
      → Bytes
      → Option D
      → List (Answer × Answer)
      → List Arrival
      → TcpConnection
      → PbClient K D
      → Run (TcpConnection × PbClient K D)
  call_method cntl service method payload closure answers arrivals c w =
      start_call cntl service method payload closure c w >>= λ (fits, c', w').
      if fits then send_call closure answers arrivals c' w' else returns (c', w')
