-- ===== src/Acceptor/Listening.antt =====
-- A new acceptor.
use small_rpc.Prelude.{
  ℕ, ◌+◌, ◌*◌, ◌/◌, ◌%◌, ◌<◌, ◌≡◌, false, List, [], ◌∷◌, Bytes, Option, none, some, returns, Run, ℤ,
  pos,
}
use small_rpc.Acceptor.{new_acceptor}
use small_rpc.EventLoop.{Channel, Epoll}
use small_rpc.Socket.{
  SocketAddress, SocketAnswers, SocketCall, set_flags, reuse_address, bound, listened,
}
use small_rpc.TcpConnection.{epollin}

-- These flags are the old ones, with the bit of `O_NONBLOCK` set and every other bit as it was.
abbrev pub IsNonblocking : ℕ → ℤ → Type 0
IsNonblocking old flags =
    (f : ℕ) × (flags ≡ pos f)
    × (f / 2048 % 2 ≡ 1)
    × (f % 2048 ≡ old % 2048)
    × (f / 4096 ≡ old / 4096)

-- The port stands in memory with its high byte first.
abbrev pub HasPort : ℕ → Bytes → Type 0
HasPort port bytes =
    (high : ℕ) × (low : ℕ) × (bytes ≡ high ∷ low ∷ [])
    × (high < 256)
    × (low < 256)
    × (high * 256 + low ≡ port)

-- The calls of `listen_socket`: the socket is set not to block and made reusable, bound to the address and
-- set to listen.
abbrev pub Prepares : (old fd port address : ℕ) → List SocketCall → Type 0
Prepares old fd port address calls =
    (flags : ℤ) × (at : SocketAddress) × (calls
      ≡ set_flags fd flags ∷ reuse_address fd ∷ bound fd at ∷ listened fd 1024 ∷ [])
    × IsNonblocking old flags
    × HasPort port at.port
    × (at.family ≡ 2)
    × (at.address ≡ address)

-- What the system may refuse.
pub data Denial (o : SocketAnswers) (parsed : Option ℕ) (added : Type 0) : Type 0 where
  flags_denied : o.flags_set ≡ false → Denial o parsed added
  reuse_denied : o.reuse_set ≡ false → Denial o parsed added
  address_denied : parsed ≡ none → Denial o parsed added
  bind_denied : o.bind_done ≡ false → Denial o parsed added
  listen_denied : o.listen_done ≡ false → Denial o parsed added
  watch_denied : added → Denial o parsed added

module _ (pton : Bytes → Option ℕ) (o : SocketAnswers) (text : Bytes) (port fd old : ℕ) where
  abbrev Socket : Run (ℕ × List SocketCall) → Type 0
  Socket run =
      (address : ℕ) × (calls : List SocketCall) × (pton text ≡ some address)
      × (run ≡ returns (fd, calls))
      × Prepares old fd port address calls

  -- Everything that `Acceptor` asks for was done, and epoll watches its channel for `EPOLLIN` only.
  abbrev pub Listens : {K : Type 0} → Epoll K → K → Type 0
  Listens {K} E k =
      (address : ℕ) × (calls : List SocketCall) × (channel : Channel) × (k' : K) × (pton text
        ≡ some address)
      × Prepares old fd port address calls
      × (new_acceptor E pton o text port k ≡ returns (channel, calls, k'))
      × (channel.fd ≡ fd)
      × (E.watched k' fd ≡ some epollin)
