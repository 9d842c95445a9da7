-- ===== src/TcpConnection.antt =====
-- net/tcpconnection.h and net/tcpconnection.cpp: a connection and what it does with the events of
-- epoll. A callback takes the connection and the state of the program around it; it gives the
-- connection back, or `none` when it has deleted it.
use small_rpc.Prelude.{
  ℕ, zero, suc, ◌/◌, ◌%◌, ◌==◌, if◌then◌else◌, Bool, Option, none, some, Run, returns, fault, ◌>>=◌,
  ℤ, pos, negsuc,
}
use small_rpc.Buffer
use small_rpc.Buffer.{Buffer, readable}
use small_rpc.Buffer.Socket.{Answer, Arrival, read_fd, write_fd}
use small_rpc.EventLoop.{Channel}
use small_rpc.Protocols.{AnyContext}
use small_rpc.TimeStamp.{TimeStamp}

abbrev pub epollin : ℕ
epollin = 1

abbrev pub epollout : ℕ
epollout = 4

-- `address` is the pointer's value.
pub record TcpConnection : Type 0 where
  pub address : ℕ
  pub channel : Channel
  pub proto_idx : ℕ
  pub ts : TimeStamp
  pub timer_id : ℕ
  pub connected : Bool
  pub context : Option AnyContext
  pub rbuf : Buffer
  pub wbuf : Buffer

-- `TCPConnection(conn, el, connected)`, allocated at `address` at the time `now`.
unfoldable pub new_connection : ℕ → ℕ → TimeStamp → Bool → TcpConnection
new_connection address fd now connected = record {
  address = address;
  channel = record { fd = fd; event = 0; sevent = 0 };
  proto_idx = 0;
  ts = now;
  timer_id = 0;
  connected = connected;
  context = none;
  rbuf = Buffer.new;
  wbuf = Buffer.new;
}

unfoldable pub set_event : ℕ → TcpConnection → TcpConnection
set_event event c = record c { channel = record c.channel { event = event } }

-- Whether a mask has the bit of a power of two.
abbrev pub has_bit : ℕ → ℕ → Bool
has_bit bit events = (events / bit) % 2 == 1

module _ (W : Type 0) where
  abbrev pub Callback : Type 0
  Callback = TcpConnection → W → Run (Option TcpConnection × W)

  -- `none` is a `std::function` that was not set.
  pub record Callbacks : Type 0 where
    pub client_conn : Option Callback
    pub data_read : Option Callback
    pub write_complete : Option Callback
    pub on_close : Option Callback

module _ {W : Type 0} where
  unfoldable pub call_set : Option (Callback W) → Callback W
  call_set none c w = returns (some c, w)
  call_set (some callback) c w = callback c w

  -- `close`, which does not look whether its callback was set: an empty one throws.
  unfoldable pub close : Callbacks W → Callback W
  close cs c w = elim cs.on_close [ none ↦ fault | some callback ↦ callback c w ]

  unfoldable pub after_read : Callbacks W → ℤ → Callback W
  after_read cs (pos zero) c w = call_set cs.on_close c w
  after_read cs (pos (suc n)) c w = call_set cs.data_read c w
  after_read cs (negsuc n) c w = call_set cs.data_read c w

  unfoldable pub handle_input : Callbacks W → Arrival → Callback W
  handle_input cs arrival c w =
      read_fd c.rbuf arrival >>= λ r. after_read cs r.code (record c { rbuf = r.buffer }) w

  unfoldable pub after_write : Callbacks W → Buffer → Callback W
  after_write cs wbuf c w =
      if readable wbuf == 0
      then call_set cs.write_complete (record c { wbuf = wbuf }) w
      else returns (some (record c { wbuf = wbuf }), w)

  unfoldable pub handle_output : Callbacks W → Answer → Answer → Callback W
  handle_output cs first second c w =
      write_fd c.wbuf first second >>= λ r. after_write cs r.buffer c w

  -- `handle_events`, with what the socket answers.
  unfoldable pub handle_events : Callbacks W → ℕ → Arrival → Answer → Answer → Callback W
  handle_events cs events arrival first second c w =
      if has_bit epollin events
      then handle_input cs arrival c w
      else if has_bit epollout events
      then if c.connected then handle_output cs first second c w else call_set cs.client_conn c w
      else returns (some c, w)
