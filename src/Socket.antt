-- ===== src/Socket.antt =====
-- net/socket.cpp: how the program makes its sockets. What the system answers is an argument; the calls
-- that change a descriptor are kept in order. Writing an address to a log is left out.
use small_rpc.Prelude.{
  ℕ, ◌+◌, ◌/◌, ◌%◌, Bool, ◌==◌, if◌then◌else◌, List, [], ◌∷◌, Bytes, Option, none, some, ℤ, pos,
  negsuc, Run, returns, fault, ◌>>=◌,
}

-- `sockaddr_in`, with the port as it stands in memory.
pub record SocketAddress : Type 0 where
  pub family : ℕ
  pub port : Bytes
  pub address : ℕ

-- `AF_INET` and `O_NONBLOCK`
abbrev pub af_inet : ℕ
af_inet = 2

abbrev pub o_nonblock : ℕ
o_nonblock = 2048

-- A call that changed a descriptor or its state.
pub data SocketCall : Type 0 where
  set_flags : ℕ → ℤ → SocketCall
  reuse_address : ℕ → SocketCall
  bound : ℕ → SocketAddress → SocketCall
  listened : ℕ → ℕ → SocketCall

-- The answers of the system to `listen_socket`: the descriptor of `::socket`, the flags that
-- `F_GETFL` gives, `none` being -1, and whether the other calls succeed.
pub record SocketAnswers : Type 0 where
  pub descriptor : Option ℕ
  pub flags : Option ℕ
  pub flags_set : Bool
  pub reuse_set : Bool
  pub bind_done : Bool
  pub listen_done : Bool

unfoldable pub address_of : Option ℕ → ℕ → Run SocketAddress
address_of none port = fault
address_of (some address) port =
    returns
      (record { family = af_inet; port = port / 256 % 256 ∷ port % 256 ∷ []; address = address })

-- `get_addr`, with what `::inet_pton` makes of the text.
unfoldable pub get_addr : (Bytes → Option ℕ) → Bytes → ℕ → Run SocketAddress
get_addr pton text port = address_of (pton text) port

-- `flags | O_NONBLOCK`; -1 has every bit already.
unfoldable pub with_nonblock : Option ℕ → ℤ
with_nonblock none = negsuc 0
with_nonblock (some flags) = pos (if flags / o_nonblock % 2 == 1 then flags else flags + o_nonblock)

-- `set_nonblocking`; the answer of `F_GETFL` is not tested.
unfoldable pub set_nonblocking : Option ℕ → Bool → ℕ → Run SocketCall
set_nonblocking flags done fd = if done then returns (set_flags fd (with_nonblock flags)) else fault

-- `listen_socket` with the answer of `::socket`.
unfoldable pub listen_on :
    Option ℕ → (Bytes → Option ℕ) → SocketAnswers → Bytes → ℕ → ℕ → Run (ℕ × List SocketCall)
listen_on none pton o text port backlog = fault
listen_on (some fd) pton o text port backlog = do
  flags ← set_nonblocking o.flags o.flags_set fd
  reuse ← if o.reuse_set then returns (reuse_address fd) else fault
  at ← get_addr pton text port
  bind ← if o.bind_done then returns (bound fd at) else fault
  listen ← if o.listen_done then returns (listened fd backlog) else fault
  returns (fd, flags ∷ reuse ∷ bind ∷ listen ∷ [])

-- `listen_socket`
unfoldable pub listen_socket :
    (Bytes → Option ℕ) → SocketAnswers → Bytes → ℕ → ℕ → Run (ℕ × List SocketCall)
listen_socket pton o text port backlog = listen_on o.descriptor pton o text port backlog

-- The default of `backlog`.
abbrev pub default_backlog : ℕ
default_backlog = 1024
