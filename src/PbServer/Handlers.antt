-- ===== src/PbServer/Handlers.antt =====
-- The callbacks of net/pb_server.cpp, on the loop that a connection belongs to. An `int` that counts
-- timers is taken not to wrap.
use small_rpc.Prelude.{
  ℕ, ◌+◌, Bool, true, false, ◌==◌, ltb, if◌then◌else◌, List, [], ◌∷◌, ◌++◌, length, drop, Bytes,
  Option, none, some, Run, returns, fault, ◌>>=◌, ℤ, pos, ltb_ℤ,
}
use small_rpc.Buffer.{clear, view_str}
use small_rpc.EventLoop.{
  Epoll, EventLoop, update_channel, add_func, run_after, add_channel, remove_channel, has_channel,
}
use small_rpc.PbServer.{PbServer, Method, Tried, find_service_method, try_protocols}
use small_rpc.Protocol.{
  ConnType, short, single, pool, ok, ParseProtocolStatus, success, error, no_enough_data,
  try_another_protocol, part_success,
}
use small_rpc.Protocols.{AnyContext, base_of, set_base, pack_response}
use small_rpc.TcpConnection.{
  TcpConnection, Callback, Callbacks, new_connection, set_event, epollin, epollout,
}
use small_rpc.TimeStamp.{TimeStamp}

-- The functions that the server gives to its loops; a connection is named by its address.
pub data Task : Type 0 where
  update_task : ℕ → Task
  timeout_task : ℕ → TimeStamp → ℕ → Bool → Task

-- The kernel, the connection's loop, and the descriptors that were given to `::close`, in order.
pub record World (K : Type 0) : Type 0 where
  pub kernel : K
  pub el : EventLoop Task
  pub closed : List ℕ

module _ {K : Type 0} (E : Epoll K) where
  unfoldable pub update : TcpConnection → World K → Run (TcpConnection × World K)
  update c w = update_channel E c.channel w.kernel >>= λ r.
      returns (record c { channel = r.0 }, record w { kernel = r.1 })

  -- `close_callback`. `delete conn` runs `~Channel`, which closes the descriptor again.
  unfoldable pub close_callback : Callback (World K)
  close_callback c w = update (set_event 0 c) w >>= λ r. returns (
    none,
    record r.1 {
      el = remove_channel c.address c.ts r.1.el;
      closed = r.1.closed ++ c.channel.fd ∷ c.channel.fd ∷ [];
    },
  )

  -- The new timer of a connection, if the server has such a timeout.
  unfoldable pub arm : ℤ → Bool → TimeStamp → TcpConnection → World K → TcpConnection × World K
  arm ms is_read now c w =
      if ltb_ℤ (pos 0) ms
      then (
        record c { timer_id = c.timer_id + 1 },
        record w {
          el = run_after now ms (timeout_task c.address c.ts (c.timer_id + 1) is_read) w.el;
        },
      )
      else (c, w)

  abbrev pub keep : TcpConnection × World K → Run (Option TcpConnection × World K)
  keep (c, w) = returns (some c, w)

  -- `new_connection_callback`, allocated at `address`; the clock is read twice.
  unfoldable pub new_connection_callback :
      PbServer → ℕ → ℕ → TimeStamp → TimeStamp → World K → Run (Option TcpConnection × World K)
  new_connection_callback s address fd made now w =
      let c = set_event epollin (new_connection address fd made true) in
      update c (record w { el = add_channel address made w.el }) >>= λ r.
      keep (arm s.read_timeout_ms true now r.0 r.1)

  -- The context of a response.
  unfoldable pub answered : AnyContext → Bytes → AnyContext
  answered ctx response =
      set_base ctx (record (base_of ctx) { rpc_status = ok; payload = response })

  -- `response_callback`; `pack_response` answers `true` whenever it returns.
  unfoldable pub response_callback : PbServer → TimeStamp → Bytes → AnyContext → Callback (World K)
  response_callback s now response ctx c w =
      pack_response (answered ctx response) c.wbuf >>= λ wbuf. keep (
        arm s.write_timeout_ms false now
          (set_event epollout (record c { context = some (answered ctx response); wbuf = wbuf }))
          (record w { el = add_func (update_task c.address) w.el }))

  unfoldable pub run_method :
      PbServer → TimeStamp → Bytes → AnyContext → Option Method → Callback (World K)
  run_method s now payload ctx none c w = close_callback c w
  run_method s now payload ctx (some m) c w = elim (m payload) [
    | none ↦ close_callback c w
    | some response ↦ response_callback s now response ctx c w
  ]

  -- `request_callback`
  unfoldable pub request_callback : PbServer → TimeStamp → Callback (World K)
  request_callback s now c w = elim c.context [
    | none ↦ fault
    | some ctx ↦ view_str (base_of ctx).payload_view c.rbuf >>= λ payload.
        run_method s now payload ctx
          (find_service_method (base_of ctx).service (base_of ctx).method s) c w
  ]

  unfoldable pub after_status :
      PbServer → TimeStamp → Option ParseProtocolStatus → Callback (World K)
  after_status s now none c w = fault
  after_status s now (some error) c w = close_callback c w
  after_status s now (some no_enough_data) c w = returns (some c, w)
  after_status s now (some success) c w = request_callback s now c w
  after_status s now (some try_another_protocol) c w = request_callback s now c w
  after_status s now (some part_success) c w = request_callback s now c w

  -- `data_read_callback`
  unfoldable pub after_tries : PbServer → TimeStamp → Tried → Callback (World K)
  after_tries s now t c w =
      let c' = record c { proto_idx = t.index; context = t.slot; rbuf = t.rest } in
      if ltb t.index (length s.protocols)
      then after_status s now t.status c' w
      else close_callback c' w

  unfoldable pub data_read_callback : PbServer → TimeStamp → Callback (World K)
  data_read_callback s now c w =
      try_protocols (drop c.proto_idx s.protocols) c.proto_idx none c.rbuf c.context >>= λ t.
      after_tries s now t c w

  unfoldable pub listen_again : PbServer → TimeStamp → Callback (World K)
  listen_again s now c w =
      update (set_event epollin c) w >>= λ r. keep (arm s.read_timeout_ms true now r.0 r.1)

  unfoldable pub after_write_of : ConnType → PbServer → TimeStamp → Callback (World K)
  after_write_of short s now c w = close_callback c w
  after_write_of single s now c w = listen_again s now c w
  after_write_of pool s now c w = listen_again s now c w

  -- `write_complete_callback`
  unfoldable pub write_complete_callback : PbServer → TimeStamp → Callback (World K)
  write_complete_callback s now c w = elim c.context [
    | none ↦ fault
    | some ctx ↦
        after_write_of (base_of ctx).conn_type s now
          (record c { context = none; rbuf = clear c.rbuf; wbuf = clear c.wbuf }) w
  ]

  -- `timeout_callback` of the timer `id`; only a connection that the loop knows is looked into.
  unfoldable pub timeout_callback : TimeStamp → ℕ → Callback (World K)
  timeout_callback ts id c w =
      if has_channel c.address ts w.el
      then if c.timer_id == id then close_callback c w else returns (some c, w)
      else returns (some c, w)

  -- What `new_connection_callback` sets.
  unfoldable pub server_callbacks : PbServer → TimeStamp → Callbacks (World K)
  server_callbacks s now = record {
    client_conn = none;
    data_read = some (data_read_callback s now);
    write_complete = some (write_complete_callback s now);
    on_close = some close_callback;
  }
