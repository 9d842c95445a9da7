-- ===== src/PbServer/Timers.antt =====
-- Which timers of a connection still count after its response was written.
use small_rpc.Prelude.{
  ℕ, ◌+◌, ◌≤◌, ◌≡◌, refl, true, false, none, some, returns, ==_refl, pos, ltb_ℤ, ne→==, arith,
}
use small_rpc.Buffer.{clear}
use small_rpc.EventLoop.{Epoll, has_channel, entry_is, run_after, wakeup}
use small_rpc.PbServer.{PbServer}
use small_rpc.PbServer.Closing.{IsOpen-same, IsOpen, update_event, same_time_refl}
use small_rpc.PbServer.Handlers.{
  World, write_complete_callback, after_write_of, listen_again, arm, timeout_callback,
  close_callback, timeout_task,
}
use small_rpc.Protocol.{single}
use small_rpc.Protocols.{AnyContext, base_of}
use small_rpc.TcpConnection.{TcpConnection, epollin}
use small_rpc.TimeStamp.{TimeStamp}

-- A connection whose context and buffers are cleared.
abbrev cleared : TcpConnection → TcpConnection
cleared c = record c { context = none; rbuf = clear c.rbuf; wbuf = clear c.wbuf }

-- ... and which waits for input.
abbrev listening : TcpConnection → TcpConnection
listening c = record (cleared c) {
  channel = record c.channel { event = epollin; sevent = epollin };
}

module _ {K : Type 0} (E : Epoll K) where
  -- When the response on a `ConnType_Single` connection is written and the server has a read timeout,
  -- the connection stays open and no timer that was set before does anything.
  pub write_complete-stale :
      (s : PbServer) (now : TimeStamp) (c : TcpConnection) (ctx : AnyContext) (w : World K) (id : ℕ)
      → IsOpen E c w
      → c.context ≡ some ctx
      → (base_of ctx).conn_type ≡ single
      → ltb_ℤ (pos 0) s.read_timeout_ms ≡ true
      → id ≤ c.timer_id
      → (c' : TcpConnection) × (w' : World K) × (write_complete_callback E s now c w
          ≡ returns (some c', w'))
        × (timeout_callback E c.ts id c' w' ≡ returns (some c', w'))
  unfolding write_complete_callback after_write_of listen_again arm timeout_callback has_channel
      entry_is run_after wakeup
  write_complete-stale s now c ctx w id o has_context stays on old =
      let (k', ok, _) =
        update_event E epollin (cleared c) w (IsOpen-same E o refl refl refl refl refl) in
      (
        record (listening c) { timer_id = c.timer_id + 1 },
        record w {
          kernel = k';
          el =
              run_after now s.read_timeout_ms (timeout_task c.address c.ts (c.timer_id + 1) true)
                w.el;
        },
        rw (has_context, stays, ok, on) refl,
        rw (o.known, same_time_refl c.ts, ne→== (c.timer_id + 1) id (omega arith)) refl,
      )

  -- When the response on a `ConnType_Single` connection is written and the server has no read timeout, the
  -- last timer that was set, the one of the write, still closes the connection.
  pub write_complete_expires :
      (s : PbServer) (now : TimeStamp) (c : TcpConnection) (ctx : AnyContext) (w : World K)
      → IsOpen E c w
      → c.context ≡ some ctx
      → (base_of ctx).conn_type ≡ single
      → ltb_ℤ (pos 0) s.read_timeout_ms ≡ false
      → (c' : TcpConnection) × (w' : World K) × (write_complete_callback E s now c w
          ≡ returns (some c', w'))
        × (timeout_callback E c.ts c.timer_id c' w' ≡ close_callback E c' w')
  unfolding write_complete_callback after_write_of listen_again arm timeout_callback has_channel
      entry_is
  write_complete_expires s now c ctx w o has_context stays off =
      let (k', ok, _) =
        update_event E epollin (cleared c) w (IsOpen-same E o refl refl refl refl refl) in
      (
        listening c,
        record w { kernel = k' },
        rw (has_context, stays, ok, off) refl,
        rw (o.known, same_time_refl c.ts, ==_refl c.timer_id) refl,
      )
