-- ===== src/Acceptor.antt =====
-- net/acceptor.h and net/acceptor.cpp: a listening socket gives each accepted descriptor to its callback.
pub mod Listening
use small_rpc.Prelude.{
  ℕ, if◌then◌else◌, List, Bytes, Option, none, some, Run, returns, fault, ◌>>=◌,
}
use small_rpc.EventLoop.{Channel, Epoll, update_channel}
use small_rpc.Socket.{SocketAnswers, SocketCall, listen_socket, default_backlog}
use small_rpc.TcpConnection.{epollin, has_bit}

-- `Acceptor(el, addr, port)`: its channel, and what was done to its socket.
unfoldable pub new_acceptor :
    {K : Type 0}
    → Epoll K
    → (Bytes → Option ℕ)
    → SocketAnswers
    → Bytes
    → ℕ
    → K
    → Run (Channel × List SocketCall × K)
new_acceptor E pton o addr port k = do
  (fd, calls) ← listen_socket pton o addr port default_backlog
  (channel, k') ← update_channel E (record { fd = fd; event = epollin; sevent = 0 }) k
  returns (channel, calls, k')

-- What `::accept` answers: a descriptor, an error after which it can be called again (`EAGAIN`,
-- `EWOULDBLOCK`, `ECONNABORTED`, `EINTR`), or another error.
pub data Accepted : Type 0 where
  accepted : ℕ → Accepted
  come_back : Accepted
  broken : Accepted

-- `W` is the state of the program around it; `none` is a callback that was not set.
module _ {W : Type 0} where
  -- `handler_new_connection`
  unfoldable pub handler_new_connection : Option (ℕ → W → Run W) → Accepted → W → Run W
  handler_new_connection callback come_back w = returns w
  handler_new_connection callback broken w = fault
  handler_new_connection none (accepted fd) w = returns w
  handler_new_connection (some callback) (accepted fd) w = callback fd w

  -- `handle_events`
  unfoldable pub handle_events : Option (ℕ → W → Run W) → ℕ → Accepted → W → Run W
  handle_events callback events answer w =
      if has_bit epollin events then handler_new_connection callback answer w else returns w
