-- ===== src/Tests/ConnectionTests.antt =====
-- net/tcpconnection.cpp and net/pb_server.cpp at concrete inputs.
use small_rpc.Buffer.Socket.{took, came, Written, write_fd}
use small_rpc.Buffer.{
  Buffer, readable, peek_uint32, read_range, find_crlf, find_pair, null_view, view_str,
}
use small_rpc.EventLoop.Watch.{entry_of}
use small_rpc.EventLoop.{update_channel, update_changed, epoll_ctl, remove_channel, has_channel}
use small_rpc.Http.{parse_request, stages, run_stage}
use small_rpc.Http.Line.{parse_request_line, with_line}
use small_rpc.Http.State.{new_http, match_method, find_method, http_methods}
use small_rpc.Http.Text.{starts_with}
use small_rpc.PbServer.Choice.{Declines, data_read_callback-strange}
use small_rpc.PbServer.Late.{late_response, request_later, late_response-timeout_callback}
use small_rpc.PbServer.Closing.{IsOpen, close_callback-closes}
use small_rpc.PbServer.Handlers.{
  World, update, close_callback, timeout_callback, write_complete_callback, data_read_callback,
  response_callback, server_callbacks,
}
use small_rpc.PbServer.Timers.{write_complete-stale}
use small_rpc.PbServer.{PbServer, is_try_another, find_service_method, find, eqb_bytes}
use small_rpc.Prelude.{
  ℕ, ℤ, Option, ◌≡◌, ◌≢◌, ◌≤◌, refl, arith, false, true, ◌==◌, if◌then◌else◌, [], ◌∷◌, ◌++◌, none,
  some, pos, returns, codes, Bytes, length, drop, All, inl, inr, be_word, ◌>>=◌, fault,
}
use small_rpc.Protocol.{ok, single, new_context}
use small_rpc.Protocols.{
  AnyContext, simple, simple_parse, simple_start, http_parse, http_start, run_http, simple_protocol,
  http_protocol, base_of,
}
use small_rpc.Simple.{magic_num}
use small_rpc.PbServer.Truncated.{Forgets, handle_events_truncates}
use small_rpc.Buffer.Contents.{Holds, outgoing}
use small_rpc.Buffer.Socket.Stream.{Extra}
use small_rpc.TcpConnection.{TcpConnection, handle_events, epollout, set_event}
use small_rpc.Tests.Kernel.{Table, table, put}
use small_rpc.TimeStamp.{TimeStamp}

abbrev pub made : TimeStamp
made = record { sec = pos 100; msec = pos 5 }

abbrev pub bytes_in : Bytes → Buffer
bytes_in bytes = record {
  rindex = 0;
  windex = length bytes;
  storage = bytes;
  extra_index = 0;
  extra_data = codes "body";
}

abbrev simple_context : AnyContext
simple_context =
    simple (record { base = record (new_context ok) { conn_type = single }; stage = 0 })

abbrev pub conn : TcpConnection
conn = record {
  address = 8;
  channel = record { fd = 5; event = 4; sevent = 4 };
  proto_idx = 0;
  ts = made;
  timer_id = 2;
  connected = true;
  context = some simple_context;
  rbuf = bytes_in (codes "OPTION?");
  wbuf = bytes_in [];
}

abbrev known : ℕ → Option TimeStamp
known c = if c == 8 then some made else none

abbrev pub world : World Table
world = record {
  kernel = λ fd. if fd == 5 then some 4 else none;
  el = record { is_stop = false; wakeups = 0; funcs = []; timers = []; channels = known };
  closed = [];
}

pub conn-IsOpen : IsOpen table conn world
unfolding entry_of table
conn-IsOpen = record {
  synced = refl;
  known = refl;
  wants = λ e. omega (arith, e);
  watches = λ e. omega (arith, e);
}

close_callback-closes_example :
    (w' : World Table) × (close_callback table conn world ≡ returns (none, w'))
    × (table.watched w'.kernel 5 ≡ none)
    × ((at : TimeStamp) → has_channel 8 at w'.el ≡ false)
    × (w'.closed ≡ [] ++ 5 ∷ 5 ∷ [])
close_callback-closes_example = close_callback-closes table conn world conn-IsOpen

abbrev pub closed_world : World Table
closed_world = record {
  kernel = put 5 none world.kernel;
  el = remove_channel 8 made world.el;
  closed = 5 ∷ 5 ∷ [];
}

pub conn_closes : close_callback table conn world ≡ returns (none, closed_world)
unfolding close_callback update set_event update_channel update_changed epoll_ctl table
conn_closes = refl

abbrev pub server : ℤ → PbServer
server ms = record {
  read_timeout_ms = ms;
  write_timeout_ms = pos 50;
  protocols = simple_protocol ∷ http_protocol ∷ [];
  services = [];
}

no_payload : view_str (base_of simple_context).payload_view conn.rbuf ≡ returns []
unfolding view_str new_context null_view
no_payload = refl

-- A server whose method has no name, like the call in the context.
abbrev later_server : PbServer
later_server = record (server (pos 60)) {
  services = ([], ([], λ payload. some (codes "late")) ∷ []) ∷ [];
}

later_known :
    find_service_method
      (base_of simple_context).service
      (base_of simple_context).method
      later_server
    ≡ some (λ payload. some (codes "late"))
unfolding find_service_method find eqb_bytes new_context
later_known = refl

late_response-timeout_callback_example :
    (request_later table later_server conn world ≡ returns (some conn, world))
    × ((timeout_callback table made 2 conn world >>= λ r.
          late_response table later_server made (codes "late") r.0 r.1)
        ≡ (if 2 == 2
            then fault
            else response_callback table later_server made
                (codes "late")
                simple_context
                conn
                world))
late_response-timeout_callback_example =
    late_response-timeout_callback table later_server made (λ payload. some (codes "late")) []
      (codes "late") simple_context 2 conn world conn-IsOpen refl no_payload later_known refl

write_complete-stale_example :
    (c' : TcpConnection) × (w' : World Table) × (write_complete_callback table
        (server (pos 60))
        made
        conn
        world
      ≡ returns (some c', w'))
    × (timeout_callback table made 2 c' w' ≡ returns (some c', w'))
unfolding new_context
write_complete-stale_example =
    write_complete-stale table (server (pos 60)) made conn simple_context world 2 conn-IsOpen refl
      refl refl (omega arith)

-- The connection has sent its head and keeps the extra data "body".
abbrev responding : TcpConnection
responding = record conn { wbuf = bytes_in (codes "head") }

responding-IsOpen : IsOpen table responding world
responding-IsOpen = record {
  synced = conn-IsOpen.synced;
  known = refl;
  wants = conn-IsOpen.wants;
  watches = conn-IsOpen.watches;
}

head-Holds : Holds responding.wbuf (codes "head")
head-Holds = record {
  dead = [];
  room = [];
  splits = refl;
  starts = refl;
  ends = refl;
  fits = omega arith;
}

body-Extra : Extra responding.wbuf (codes "body")
body-Extra = record { gone = []; splits = refl; starts = refl; fits = omega arith }

handle_events_truncates_example :
    (r : Written) × (write_fd responding.wbuf (took 4) (took 1) ≡ returns r)
    × (r.sent ++ outgoing r.buffer ≡ outgoing responding.wbuf)
    × (c' : TcpConnection) × (w' : World Table) × (handle_events
          (server_callbacks table (server (pos 60)) made)
          epollout
          (came [])
          (took 4)
          (took 1)
          responding
          world
        ≡ returns (some c', w'))
    × Forgets table 5 (c', w')
unfolding new_context
handle_events_truncates_example =
    handle_events_truncates table (server (pos 60)) made (came []) (took 1) responding
      simple_context world responding-IsOpen refl refl (λ e. cc) head-Holds body-Extra
      (codes "b", codes "ody", refl, refl)

-- Bytes that belong to neither protocol, and the beginning of a request of HTTP.
abbrev strange : Buffer
strange = bytes_in (codes "OPTION?")

abbrev get_line : Buffer
get_line = bytes_in (codes "GET /a/b")

opened : ℕ
unfolding simple_protocol http_protocol simple_parse simple_start http_parse http_start peek_uint32
    readable read_range match_method find_method http_methods starts_with is_try_another run_http
    parse_request stages run_stage parse_request_line with_line find_crlf find_pair new_http
    new_context null_view be_word
opened = 0

strange_first : (word : ℕ) × (peek_uint32 strange ≡ returns word) × (word ≢ magic_num)
unfolding opened
strange_first = (1330664521, refl, omega arith)

strange_enough : (4 ≤ readable strange) × (7 ≤ readable strange)
unfolding opened
strange_enough = (omega arith, omega arith)

strange_method : match_method (drop strange.rindex strange.storage) ≡ returns none
unfolding opened
strange_method = refl

strange-Declines : All (Declines strange none) (server (pos 60)).protocols
unfolding opened
strange-Declines = (refl, (refl, tt))

abbrev fresh : TcpConnection
fresh = record conn { context = none; rbuf = strange }

data_read_callback-strange_example :
    data_read_callback table (server (pos 60)) made fresh world
    ≡ close_callback table (record fresh { proto_idx = 2 }) world
data_read_callback-strange_example =
    data_read_callback-strange table (server (pos 60)) made fresh world strange_first.0
      (inl refl, (inr refl, tt)) refl refl strange_enough.1 strange_first.1 strange_first.2
      strange_method
