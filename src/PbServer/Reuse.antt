-- ===== src/PbServer/Reuse.antt =====
-- Timers of a connection whose memory a later connection got.
use small_rpc.Prelude.{ℕ, ◌≡◌, refl, none, some, returns, false}
use small_rpc.EventLoop.{Epoll, has_channel, entry_is}
use small_rpc.PbServer.{PbServer}
use small_rpc.PbServer.Closing.{IsOpen, timeout_callback-close}
use small_rpc.PbServer.Handlers.{World, close_callback, timeout_callback}
use small_rpc.PbServer.Life.{Lives, Lives-IsOpen}
use small_rpc.TcpConnection.{TcpConnection}
use small_rpc.TimeStamp.{TimeStamp, same_time}

module _ {K : Type 0} (E : Epoll K) where
  -- A timer that was set with another time than the connection's does nothing to it.
  timeout_callback-other :
      (s : PbServer) (d : TcpConnection) (v : World K) (at : TimeStamp) (id : ℕ)
      → Lives E s d v
      → same_time d.ts at ≡ false
      → timeout_callback E at id d v ≡ returns (some d, v)
  unfolding timeout_callback has_channel entry_is
  timeout_callback-other s d v at id lives other = rw ((Lives-IsOpen E s lives).known, other) refl

  -- When an open connection was closed, no timer of it does anything: not while its address is free, though
  -- the connection's memory is gone, and not later, when a connection that was accepted in another
  -- millisecond lives at the same address, at any point of that connection's life and with any count
  -- of its timers.
  pub timeout_callback-stale :
      (s : PbServer) (c d : TcpConnection) (w w' v : World K) (id : ℕ)
      → IsOpen E c w
      → close_callback E c w ≡ returns (none, w')
      → Lives E s d v
      → d.address ≡ c.address
      → same_time d.ts c.ts ≡ false
      → (timeout_callback E c.ts id c w' ≡ returns (some c, w'))
        × (timeout_callback E c.ts id d v ≡ returns (some d, v))
  timeout_callback-stale s c d w w' v id o closed lives same_place other = (
    timeout_callback-close E c w w' c.ts id o closed,
    timeout_callback-other s d v c.ts id lives other,
  )
