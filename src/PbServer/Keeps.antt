-- ===== src/PbServer/Keeps.antt =====
-- What the callbacks of the server leave of a connection that was open.
use small_rpc.Prelude.{
  ℕ, zero, suc, ◌≡◌, refl, Bool, true, false, Bool-cases, Option-cases, inl, inr, ltb,
  if◌then◌else◌, ◌==◌, ==_refl, length, drop, Bytes, Option, none, some, Run, returns, fault,
  out_of_fuel, ◌>>=◌, ltb_ℤ, pos, negsuc, ℤ, arith,
}
use small_rpc.Buffer.{readable, view_str, clear}
use small_rpc.Buffer.Socket.{Answer, Arrival, read_fd, write_fd}
use small_rpc.EventLoop.{Epoll, run_after, wakeup, add_func, add_channel, has_channel, set_entry}
use small_rpc.EventLoop.Watch.{entry_of, update_channel-IsSynced}
use small_rpc.PbServer.{PbServer, Method, find_service_method, try_protocols}
use small_rpc.PbServer.Closing.{IsOpen-same, IsOpen, update_event}
use small_rpc.PbServer.Handlers.{
  World, update_task, update, close_callback, arm, new_connection_callback, response_callback,
  run_method, request_callback, after_status, after_tries, data_read_callback, listen_again,
  after_write_of, write_complete_callback, timeout_callback, server_callbacks, answered,
}
use small_rpc.Protocol.{
  ConnType, short, single, pool, ParseProtocolStatus, success, error, no_enough_data,
  try_another_protocol, part_success,
}
use small_rpc.Protocols.{AnyContext, base_of, pack_response}
use small_rpc.TcpConnection.{
  TcpConnection, set_event, new_connection, epollin, epollout, has_bit, call_set, after_read,
  handle_input, after_write, handle_output, handle_events,
}
use small_rpc.TimeStamp.{TimeStamp}

module _ {K : Type 0} (E : Epoll K) where
  -- If the connection is still there afterwards, its loop knows it and epoll watches what it believes.
  abbrev pub Keeps : Run (Option TcpConnection × World K) → Type 0
  Keeps (returns (none, w)) = Unit
  Keeps (returns (some c, w)) = IsOpen E c w
  Keeps fault = Unit
  Keeps out_of_fuel = Unit

  Keeps->>= {ℓ} :
      {A : Type ℓ} (m : Run A) (f : A → Run (Option TcpConnection × World K))
      → ((a : A) → Keeps (f a))
      → Keeps (m >>= f)
  Keeps->>= (returns a) f keeps = keeps a
  Keeps->>= fault f keeps = tt
  Keeps->>= out_of_fuel f keeps = tt

  Keeps-if :
      (b : Bool) (x y : Run (Option TcpConnection × World K))
      → Keeps x
      → Keeps y
      → Keeps (if b then x else y)
  Keeps-if true x y kx ky = kx
  Keeps-if false x y kx ky = ky

  close_callback-Keeps : (c : TcpConnection) (w : World K) → Keeps (close_callback E c w)
  unfolding close_callback
  close_callback-Keeps c w = Keeps->>= (update E (set_event 0 c) w) _ (λ r. tt)

  arm-IsOpen :
      (ms : ℤ) (is_read : Bool) (now : TimeStamp) (c : TcpConnection) (w : World K)
      → IsOpen E c w
      → IsOpen E (arm E ms is_read now c w).0 (arm E ms is_read now c w).1
  unfolding arm run_after wakeup
  arm-IsOpen ms is_read now c w o = elim (Bool-cases (ltb_ℤ (pos 0) ms)) [
    | inl on ↦ rw on (IsOpen-same E o refl refl refl refl refl)
    | inr off ↦ rw off o
  ]

  response_callback-Keeps :
      (s : PbServer) (now : TimeStamp) (response : Bytes) (ctx : AnyContext) (c : TcpConnection)
      (w : World K)
      → IsOpen E c w
      → Keeps (response_callback E s now response ctx c w)
  unfolding response_callback set_event add_func wakeup
  response_callback-Keeps s now response ctx c w o =
      Keeps->>= (pack_response (answered E ctx response) c.wbuf) _ (λ wbuf.
        arm-IsOpen s.write_timeout_ms false now
          (set_event epollout (record c { context = some (answered E ctx response); wbuf = wbuf }))
          (record w { el = add_func (update_task c.address) w.el })
          (record {
            synced = o.synced;
            known = o.known;
            wants = λ e. omega (arith, e);
            watches = o.watches;
          }))

  run_method-Keeps :
      (s : PbServer) (now : TimeStamp) (payload : Bytes) (ctx : AnyContext) (m : Option Method)
      (c : TcpConnection) (w : World K)
      → IsOpen E c w
      → Keeps (run_method E s now payload ctx m c w)
  unfolding run_method
  run_method-Keeps s now payload ctx none c w o = close_callback-Keeps c w
  run_method-Keeps s now payload ctx (some m) c w o = elim (Option-cases (m payload)) [
    | inl refused ↦ rw refused (close_callback-Keeps c w)
    | inr (response, answers) ↦ rw answers (response_callback-Keeps s now response ctx c w o)
  ]

  request_callback-Keeps :
      (s : PbServer) (now : TimeStamp) (c : TcpConnection) (w : World K)
      → IsOpen E c w
      → Keeps (request_callback E s now c w)
  unfolding request_callback
  request_callback-Keeps s now c w o = elim (Option-cases c.context) [
    | inl missing ↦ rw missing tt
    | inr (ctx, has) ↦ rw has (
        Keeps->>= (view_str (base_of ctx).payload_view c.rbuf) _ (λ payload.
          run_method-Keeps s now payload ctx
            (find_service_method (base_of ctx).service (base_of ctx).method s)
            (record c { context = some ctx }) w (IsOpen-same E o refl refl refl refl refl)))
  ]

  after_status-Keeps :
      (s : PbServer) (now : TimeStamp) (status : Option ParseProtocolStatus) (c : TcpConnection)
      (w : World K)
      → IsOpen E c w
      → Keeps (after_status E s now status c w)
  unfolding after_status
  after_status-Keeps s now none c w o = tt
  after_status-Keeps s now (some error) c w o = close_callback-Keeps c w
  after_status-Keeps s now (some no_enough_data) c w o = o
  after_status-Keeps s now (some success) c w o = request_callback-Keeps s now c w o
  after_status-Keeps s now (some try_another_protocol) c w o = request_callback-Keeps s now c w o
  after_status-Keeps s now (some part_success) c w o = request_callback-Keeps s now c w o

  data_read_callback-Keeps :
      (s : PbServer) (now : TimeStamp) (c : TcpConnection) (w : World K)
      → IsOpen E c w
      → Keeps (data_read_callback E s now c w)
  unfolding data_read_callback after_tries
  data_read_callback-Keeps s now c w o =
      Keeps->>= (try_protocols (drop c.proto_idx s.protocols) c.proto_idx none c.rbuf c.context) _
        λ t.
          let c' = record c { proto_idx = t.index; context = t.slot; rbuf = t.rest } in
          elim (Bool-cases (ltb t.index (length s.protocols))) [
            | inl one ↦
                rw one (
                  after_status-Keeps s now t.status c' w (IsOpen-same E o refl refl refl refl refl))
            | inr past ↦ rw past (close_callback-Keeps c' w)
          ]

  listen_again-Keeps :
      (s : PbServer) (now : TimeStamp) (c : TcpConnection) (w : World K)
      → IsOpen E c w
      → Keeps (listen_again E s now c w)
  unfolding listen_again
  listen_again-Keeps s now c w o =
      let (k', ok, synced) = update_event E epollin c w o in
      rw ok (
        arm-IsOpen s.read_timeout_ms true now
          (record c { channel = record c.channel { event = epollin; sevent = epollin } })
          (record w { kernel = k' })
          (record {
            synced = synced;
            known = o.known;
            wants = λ e. omega (arith, e);
            watches = λ e. omega (arith, e);
          }))

  after_write_of-Keeps :
      (kind : ConnType) (s : PbServer) (now : TimeStamp) (c : TcpConnection) (w : World K)
      → IsOpen E c w
      → Keeps (after_write_of E kind s now c w)
  unfolding after_write_of
  after_write_of-Keeps short s now c w o = close_callback-Keeps c w
  after_write_of-Keeps single s now c w o = listen_again-Keeps s now c w o
  after_write_of-Keeps pool s now c w o = listen_again-Keeps s now c w o

  write_complete_callback-Keeps :
      (s : PbServer) (now : TimeStamp) (c : TcpConnection) (w : World K)
      → IsOpen E c w
      → Keeps (write_complete_callback E s now c w)
  unfolding write_complete_callback
  write_complete_callback-Keeps s now c w o = elim (Option-cases c.context) [
    | inl missing ↦ rw missing tt
    | inr (ctx, has) ↦ rw has (
        after_write_of-Keeps (base_of ctx).conn_type s now
          (record c { context = none; rbuf = clear c.rbuf; wbuf = clear c.wbuf }) w
          (IsOpen-same E o refl refl refl refl refl))
  ]

  pub timeout_callback-Keeps :
      (ts : TimeStamp) (id : ℕ) (c : TcpConnection) (w : World K)
      → IsOpen E c w
      → Keeps (timeout_callback E ts id c w)
  unfolding timeout_callback
  timeout_callback-Keeps ts id c w o = elim (Bool-cases (has_channel c.address ts w.el)) [
    | inl known ↦ elim (Bool-cases (c.timer_id == id)) [
      | inl mine ↦ rw (known, mine) (close_callback-Keeps c w)
      | inr stale ↦ rw (known, stale) o
    ]
    | inr unknown ↦ rw unknown o
  ]

  call_read-Keeps :
      (s : PbServer) (now : TimeStamp) (code : ℤ) (c : TcpConnection) (w : World K)
      → IsOpen E c w
      → Keeps (after_read (server_callbacks E s now) code c w)
  unfolding after_read server_callbacks call_set
  call_read-Keeps s now (pos zero) c w o = close_callback-Keeps c w
  call_read-Keeps s now (pos (suc n)) c w o = data_read_callback-Keeps s now c w o
  call_read-Keeps s now (negsuc n) c w o = data_read_callback-Keeps s now c w o

  handle_input-Keeps :
      (s : PbServer) (now : TimeStamp) (arrival : Arrival) (c : TcpConnection) (w : World K)
      → IsOpen E c w
      → Keeps (handle_input (server_callbacks E s now) arrival c w)
  unfolding handle_input
  handle_input-Keeps s now arrival c w o = Keeps->>= (read_fd c.rbuf arrival) _ λ r.
      call_read-Keeps s now r.code (record c { rbuf = r.buffer }) w
        (IsOpen-same E o refl refl refl refl refl)

  handle_output-Keeps :
      (s : PbServer) (now : TimeStamp) (first second : Answer) (c : TcpConnection) (w : World K)
      → IsOpen E c w
      → Keeps (handle_output (server_callbacks E s now) first second c w)
  unfolding handle_output after_write call_set server_callbacks
  handle_output-Keeps s now first second c w o = Keeps->>= (write_fd c.wbuf first second) _ λ r.
      let c' = record c { wbuf = r.buffer } in
      let o' : IsOpen E c' w = IsOpen-same E o refl refl refl refl refl in
      elim (Bool-cases (readable r.buffer == 0)) [
        | inl all ↦ rw all (write_complete_callback-Keeps s now c' w o')
        | inr more ↦ rw more o'
      ]

  pub handle_events-Keeps :
      (s : PbServer) (now : TimeStamp) (events : ℕ) (arrival : Arrival) (first second : Answer)
      (c : TcpConnection) (w : World K)
      → IsOpen E c w
      → Keeps (handle_events (server_callbacks E s now) events arrival first second c w)
  unfolding handle_events call_set server_callbacks
  handle_events-Keeps s now events arrival first second c w o =
      elim (Bool-cases (has_bit epollin events)) [
        | inl input ↦ rw input (handle_input-Keeps s now arrival c w o)
        | inr no_input ↦ elim (Bool-cases (has_bit epollout events)) [
          | inl output ↦
              rw (no_input, output)
                (Keeps-if c.connected (handle_output (server_callbacks E s now) first second c w)
                  (returns (some c, w)) (handle_output-Keeps s now first second c w o) o)
          | inr nothing ↦ rw (no_input, nothing) o
        ]
      ]

  pub new_connection_callback-Keeps :
      (s : PbServer) (address fd : ℕ) (made now : TimeStamp) (w : World K)
      → E.watched w.kernel fd ≡ none
      → Keeps (new_connection_callback E s address fd made now w)
  unfolding new_connection_callback update set_event new_connection add_channel set_entry entry_of
  new_connection_callback-Keeps s address fd made now w free =
      let c = new_connection address fd made true in
      let w0 = record w { el = add_channel address made w.el } in
      elim (update_channel-IsSynced E (record c.channel { event = epollin }) w.kernel free) [
        | inl (_, aborts) ↦ rw aborts tt
        | inr (k', ok, synced) ↦ rw ok (
            arm-IsOpen s.read_timeout_ms true now
              (record c { channel = record c.channel { event = epollin; sevent = epollin } })
              (record w0 { kernel = k' })
              (record {
                synced = synced;
                known = rw (==_refl address) refl;
                wants = λ e. omega (arith, e);
                watches = λ e. omega (arith, e);
              }))
      ]
