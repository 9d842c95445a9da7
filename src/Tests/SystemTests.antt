-- ===== src/Tests/SystemTests.antt =====
-- net/acceptor.cpp with net/socket.cpp, and base/status_manager.cpp, at concrete inputs.
use small_rpc.Acceptor.{new_acceptor}
use small_rpc.EventLoop.{Channel, update_channel, update_changed, epoll_ctl}
use small_rpc.Prelude.{ℕ, ◌≡◌, List, refl, false, true, codes, Bytes, Option, some, returns}
use small_rpc.Socket.{
  SocketAnswers, SocketCall, listen_socket, listen_on, set_nonblocking, address_of, get_addr,
  with_nonblock,
}
use small_rpc.StatusManager.Deadlock.{interrupt-IsStuck}
use small_rpc.StatusManager.{
  StatusManager, Steps, still, further, asks, new_manager, ask, lock, interrupt,
}
use small_rpc.Tests.ConnectionTests.{world}
use small_rpc.Tests.Kernel.{Table, table}

abbrev answers : SocketAnswers
answers = record {
  descriptor = some 6;
  flags = some 2;
  flags_set = true;
  reuse_set = true;
  bind_done = true;
  listen_done = true;
}

abbrev local : Bytes → Option ℕ
local text = some 2130706433

-- The branch in which it listens is the one that runs here.
listens_here :
    (channel : Channel) × (calls : List SocketCall) × (k' : Table) × (new_acceptor table local
        answers
        (codes "127.0.0.1")
        8878
        world.kernel
      ≡ returns (channel, calls, k'))
unfolding new_acceptor listen_socket listen_on set_nonblocking get_addr address_of update_channel
    update_changed epoll_ctl table with_nonblock
listens_here = (_, _, _, refl)

-- A thread in `is_close`, which SIGINT reaches, and another that calls `is_close` then.
abbrev held : StatusManager
held = lock 1 (ask 1 new_manager)

abbrev later : StatusManager
later = ask 2 (interrupt 1 held)

later-Steps : Steps (interrupt 1 held) later
unfolding interrupt lock ask new_manager
later-Steps = further (asks 2 refl refl) still

held_owner : held.owner ≡ some 1
unfolding lock
held_owner = refl

interrupt-IsStuck_example :
    (later.owner ≡ some 1) × (later.handler 1 ≡ some false) × (later.exit ≡ held.exit)
interrupt-IsStuck_example = interrupt-IsStuck 1 held later held_owner later-Steps
