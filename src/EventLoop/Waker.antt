-- ===== src/EventLoop/Waker.antt =====
-- `WakeUper` of net/eventloop.cpp: the eventfd by which other threads wake a loop. What `::eventfd`,
-- `::write` and `::read` answer is an argument.
use small_rpc.Prelude.{ℕ, ◌+◌, if◌then◌else◌, Option, none, some, Run, returns, fault}
use small_rpc.Buffer.Socket.{Errno, try_again, broken_pipe, other_error}
use small_rpc.EventLoop.{Channel, Epoll, update_channel}
use small_rpc.TcpConnection.{epollin, has_bit}

-- `WakeUper(el)`; `none` is the answer -1.
unfoldable pub new_waker : Option ℕ → Run Channel
new_waker none = fault
new_waker (some fd) = returns (record { fd = fd; event = epollin; sevent = 0 })

-- `setup`
unfoldable pub setup : {K : Type 0} → Epoll K → Channel → K → Run (Channel × K)
setup E c k = update_channel E (record c { event = epollin }) k

-- After a call that failed.
unfoldable pub after_failure : Errno → ℕ → Run ℕ
after_failure try_again counter = returns counter
after_failure broken_pipe counter = fault
after_failure other_error counter = fault

-- `wakeup`, on the counter of the eventfd; `none` is a `::write` that succeeds.
unfoldable pub wakeup : Option Errno → ℕ → Run ℕ
wakeup none counter = returns (counter + 1)
wakeup (some e) counter = after_failure e counter

unfoldable pub read_counter : Option Errno → ℕ → Run ℕ
read_counter none counter = returns 0
read_counter (some e) counter = after_failure e counter

-- `handle_events`, with the answer of `::read`, which takes the whole counter.
unfoldable pub handle_events : ℕ → Option Errno → ℕ → Run ℕ
handle_events events answer counter =
    if has_bit epollin events then read_counter answer counter else returns counter
