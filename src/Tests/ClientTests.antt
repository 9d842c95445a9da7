-- ===== src/Tests/ClientTests.antt =====
-- net/pb_client.cpp, and a client with a server, at concrete inputs.
use small_rpc.Buffer.Socket.{came}
use small_rpc.Buffer.{readable, writeable}
use small_rpc.EventLoop.Watch.{IsSynced, entry_of}
use small_rpc.EventLoop.{
  has_channel, entry_is, add_channel, set_entry, EventLoop, update_channel, update_changed,
  epoll_ctl,
}
use small_rpc.PbClient.Done.{begun_by, over_simple, data_read_callback-done}
use small_rpc.PbClient.Session.{Finishes, fresh_context}
use small_rpc.PbClient.Waiting.{in_call, waiting, read_all_hangs}
use small_rpc.PbClient.{PbClient, ClientTask, read_all}
use small_rpc.PbServer.Closing.{IsOpen}
use small_rpc.PbServer.Handlers
use small_rpc.PbServer.Handlers.{World, new_connection_callback, arm, update, timeout_callback}
use small_rpc.PbServer.Reuse.{timeout_callback-stale}
use small_rpc.PbServer.Life.{Lives, accepted, later, timer, Lives-IsOpen}
use small_rpc.PbServer.Serve.{Answered, data_read_callback-Answered}
use small_rpc.PbServer.{PbServer, Method, eqb_bytes, find, find_service_method}
use small_rpc.Prelude.{
  ℕ, ◌^◌, ◌<◌, ◌≡◌, ◌≢◌, refl, arith, Bool, false, true, [], ◌∷◌, ◌++◌, length, replicate, Bytes,
  codes, be_bytes, none, some, pos, negsuc, returns, out_of_fuel,
}
use small_rpc.Protocol.{Context, no_enough_data, new_context, ok}
use small_rpc.Protocols
use small_rpc.Protocols.{gives, simple_protocol, http_protocol}
use small_rpc.Simple.Wire.{request_head, response_head}
use small_rpc.Simple
use small_rpc.Simple.{response_round, rounds, parse_magic, new_simple}
use small_rpc.TcpConnection.{TcpConnection, set_event, new_connection}
use small_rpc.Tests.ConnectionTests.{
  conn, world, made, server, closed_world, conn_closes, conn-IsOpen,
}
use small_rpc.Tests.Kernel.{Table, table}
use small_rpc.TimeStamp.{TimeStamp, same_time, eqb_ℤ}
use small_rpc.Tests.SimpleTests.{call, call-IsSendable, filled, filled-Holds, small, small-Holds}

-- A client that waits for its response; closures are numbers.
abbrev idle_loop : EventLoop ClientTask
idle_loop = record { is_stop = false; wakeups = 0; funcs = []; timers = []; channels = λ c. none }

abbrev pub client : Bool → PbClient Table ℕ
client has_loop = record {
  protocol = some simple_protocol;
  session = none;
  has_loop = has_loop;
  kernel = world.kernel;
  el = idle_loop;
  received = [];
  ran = [];
}

abbrev base : Context
base = record (new_context ok) { service = codes "S"; method = codes "m" }

abbrev silent : TcpConnection
silent = record conn { rbuf = small }

small_room : writeable small ≢ 0
unfolding writeable
small_room = omega arith

silent_stays :
    Protocols.parse_response (fresh_context base) small
    ≡ gives no_enough_data (some (fresh_context base)) small
unfolding Protocols.parse_response Simple.parse_response response_round rounds parse_magic readable
silent_stays = refl

read_all_hangs_example :
    read_all table
      (replicate 5 (came []))
      (in_call (fresh_context base) silent)
      (waiting none (client false))
    ≡ out_of_fuel
read_all_hangs_example =
    read_all_hangs table 5 no_enough_data (fresh_context base) none silent (client false)
      small-Holds small_room silent_stays (λ e. cc)

abbrev answer : Bytes
answer = response_head call ++ (codes "hi" ++ codes "more")

abbrev answered_conn : TcpConnection
answered_conn = record conn { rbuf = filled answer }

answer_fits : length answer < 2 ^ 63
unfolding response_head be_bytes
answer_fits = omega arith

conn-IsSynced : IsSynced table conn.channel (client true).kernel
unfolding entry_of table
conn-IsSynced = refl

data_read_callback-done_example :
    Finishes table (begun_by over_simple base) (codes "hi") 7 answered_conn (client true)
data_read_callback-done_example =
    data_read_callback-done table over_simple call base (codes "more") 7 answered_conn (client true)
      (omega arith, filled-Holds answer answer_fits) refl conn-IsSynced

-- A server with one method, which answers the payload and a mark.
abbrev pub echo : Method
echo payload = some (payload ++ codes "!")

abbrev pub echo_server : PbServer
echo_server = record (server (pos 60)) { services = (codes "S", (codes "m", echo) ∷ []) ∷ [] }

pub echo_known : find_service_method (codes "S") (codes "m") echo_server ≡ some echo
unfolding find_service_method find eqb_bytes
echo_known = refl

abbrev called : TcpConnection
called = record conn {
  context = none;
  rbuf = filled (request_head call ++ (codes "hi" ++ codes "more"));
  wbuf = small;
}

request_fits : length (request_head call ++ (codes "hi" ++ codes "more")) < 2 ^ 63
unfolding request_head be_bytes
request_fits = omega arith

data_read_callback-Answered_example :
    Answered table called.address world.el.funcs call
      (codes "hi!")
      (Handlers.data_read_callback table echo_server made called world)
data_read_callback-Answered_example =
    data_read_callback-Answered table echo_server (http_protocol ∷ []) made call (codes "more")
      (codes "hi!") echo called world refl refl refl call-IsSendable
      (filled-Holds (request_head call ++ (codes "hi" ++ codes "more")) request_fits) echo_known
      refl small-Holds refl (omega arith) (omega arith) (omega arith)

-- A connection accepted on a descriptor that epoll does not watch, and a step of another connection.
abbrev no_timeouts : PbServer
no_timeouts = server (negsuc 0)

abbrev empty_world : World Table
empty_world = record world { kernel = λ fd. none }

accepted_run :
    (c : TcpConnection) × (w : World Table) × (new_connection_callback table no_timeouts 9 6 made
        made empty_world
      ≡ returns (some c, w))
unfolding new_connection_callback arm update update_channel set_event new_connection update_changed
    epoll_ctl table
accepted_run = (_, _, refl)

accepted_late :
    timeout_callback table made 41 accepted_run.0 accepted_run.1
    ≡ returns (some accepted_run.0, accepted_run.1)
unfolding accepted_run timeout_callback has_channel entry_is add_channel set_entry same_time eqb_ℤ
accepted_late = refl

accepted_Lives : Lives table no_timeouts accepted_run.0 accepted_run.1
unfolding table
accepted_Lives =
    later (accepted empty_world 9 6 made made refl accepted_run.2) (timer made 41 accepted_late)

Lives-IsOpen_example : IsOpen table accepted_run.0 accepted_run.1
Lives-IsOpen_example = Lives-IsOpen table no_timeouts accepted_Lives

-- A connection that got the address of a closed one, three milliseconds later.
abbrev later_made : TimeStamp
later_made = record { sec = pos 100; msec = pos 8 }

reused_run :
    (c : TcpConnection) × (w : World Table) × (new_connection_callback table no_timeouts 8 5
        later_made later_made closed_world
      ≡ returns (some c, w))
unfolding new_connection_callback arm update update_channel update_changed epoll_ctl table
    new_connection set_event add_channel
reused_run = (_, _, refl)

reused_other : same_time reused_run.0.ts made ≡ false
unfolding reused_run new_connection set_event arm same_time eqb_ℤ
reused_other = refl

reused_place : reused_run.0.address ≡ 8
unfolding reused_run new_connection set_event arm
reused_place = refl

timeout_callback-stale_example :
    (timeout_callback table made 2 conn closed_world ≡ returns (some conn, closed_world))
    × (timeout_callback table made 2 reused_run.0 reused_run.1
        ≡ returns (some reused_run.0, reused_run.1))
unfolding table
timeout_callback-stale_example =
    timeout_callback-stale table no_timeouts conn reused_run.0 world closed_world reused_run.1 2
      conn-IsOpen conn_closes (accepted closed_world 8 5 later_made later_made refl reused_run.2)
      reused_place reused_other
