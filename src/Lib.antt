-- ===== src/Lib.antt =====
-- small_rpc: a library for remote calls on epoll. This development models its buffers, both of its
-- protocols, its event loop with timers, its connections, its server and its client.
--
-- How the parts interact: an `EventLoop` (net/eventloop.cpp) waits for epoll and lets each ready
-- `Channel` handle its events; a `TCPConnection` (net/tcpconnection.cpp) reads its socket into a
-- `Buffer` (net/buffer.h) or writes one to it, and calls the callbacks of its owner. A `PbServer`
-- (net/pb_server.cpp) sits on a `TCPServer` (net/tcpserver.cpp), which gives each new connection to one
-- of its loops; the server lets its protocols (protocols/simple.cpp, protocols/http.cpp) parse the
-- bytes, runs a method and packs the response. A `PbClient` (net/pb_client.cpp) packs a request and waits
-- for its response, by itself or with a loop.
--
-- The files:
-- - Prelude: helpers; Prelude/Outcome: `Run`, a result, a fault (a read or a write outside an object, an
--   exception that nothing catches, `abort`), or fuel that ran out; Prelude/Words: 32 and 64 bit words.
-- - Buffer: `Buffer` and `BufferView` of net/buffer.h, `find_crlf`. `Buffer.Buffer` has the fields
--   `_rindex`, `_windex`, `_data`, `_extra_index` and `_extra_data`. Buffer/Contents says which queue of
--   bytes a buffer stands for, Buffer/Append and Buffer/Search treat `_append` and `find_crlf`,
--   Buffer/Socket `write_fd` and `read_fd` of net/buffer.cpp with the answers of the system calls as
--   arguments.
-- - Protocol: protocols/protocol.proto and the fields of `Context` (protocols/protocol.h).
-- - Simple: `SimpleContext` (protocols/simple.cpp); Simple/Wire is its wire format, written down
--   without buffers; Simple/Pack, Simple/Parse and Simple/RoundTrip relate the packers and the parsers to it.
-- - Http: `HTTPContext` (protocols/http.cpp): Http/Line is `_parse_request_line`, Http/Header is
--   `_parse_headers`, Http/Ends, Http/Whole, Http/Endless and Http/Body treat the header loop, the
--   stages and the body, Http/Text has what the code uses of strings and `std::stoi`, with Http/Decimal about numbers.
--   Http/Wire is the text of a call, written down without buffers; Http/Pack relates the packers to it,
--   Http/Found, Http/FirstLine, Http/Lines, Http/Stored, Http/Stages and Http/RoundTrip the parsers.
--   Http/Short, Http/Pieces, Http/Resume and Http/Stream are about a request that arrives in pieces.
-- - Protocols: `SimpleProtocol::parse_request` and `HTTPProtocol::parse_request`.
-- - TimeStamp, TimerManager, DoneGuard: base/timestamp.h, net/timer_manager.h, base/done_guard.h;
--   TimeStamp/Text prints a time.
-- - EventLoop: net/eventloop.h, net/eventloop.cpp and net/channel.h; EventLoop/Watch is about epoll,
--   EventLoop/Registry about the map of channels, EventLoop/Turn about a round of `loop`; EventLoop/Waker is
--   `WakeUper`.
-- - TcpConnection: net/tcpconnection.cpp. Acceptor: net/acceptor.cpp, with Socket: net/socket.cpp;
--   Acceptor/Listening is about its constructor. TcpServer: net/tcpserver.cpp.
-- - PbServer: the fields, the registration and the loop over the protocols of net/pb_server.cpp;
--   PbServer/Handlers has its callbacks. PbServer/Serve and PbServer/ServeHttp follow a request to its
--   response, PbServer/Late a response that comes later, PbServer/Truncated one that the
--   socket cuts, PbServer/Life a connection through its events, timers and queued functions, and
--   PbServer/Reuse the timers of a connection whose address another one got.
-- - PbClient: net/pb_client.cpp and net/pb_controller.h. PbClient/Session is about a response,
--   PbClient/Call and PbClient/CallHttp about a synchronous call, PbClient/Done about an asynchronous one,
--   PbClient/Waiting about a response that does not come.
-- - StatusManager: base/status_manager.h; StatusManager/Deadlock is about its signal handler.
-- - RemoteCall: a client with a server, RemoteCall/OverHttp over HTTP. EchoServer:
--   examples/echo/server.cpp.
-- - Logging: base/logging.h; Logging/Files and Logging/Opens are about its file appender, Logging/Severity
--   about its severities.
-- - Tests: runs at concrete inputs, and an instance of each theorem that has hypotheses.
--
-- Bounds and fuel: indices of a buffer are `size_t` and wrap at 2 ^ 64, lengths on the wire wrap at 2 ^ 32, and
-- a conversion to `int` is written out. The theorems ask for storage below 2 ^ 63 bytes. The stages
-- of the parsers run on fuel: each round but the last moves to a later stage, so that the fuel given
-- is enough; the loop over the header lines of HTTP has as much fuel as there are bytes to read, since a
-- round takes at least two of them. Seconds and milliseconds do not overflow.
--
-- Parameters: the kernel, by the record `EventLoop.Epoll` of what epoll_ctl(2) documents, by which it may
-- refuse to add a descriptor; the answers of `::read`, `::write`, `::accept`, `::connect` and
-- `epoll_wait`, of `stat`, `fopen` and `fwrite`; the
-- reading of the clock; `localtime_r`; the functions and callbacks that a loop runs; protobuf, which parses
-- a payload for a method and serializes its response.
--
-- Not modelled: printing of contexts and addresses; the destructors of connections; responses
-- that a method sends from another thread; the clients in examples/echo; and the locks of loops and
-- servers: an operation of a loop is one step.
mod Prelude
pub mod Acceptor
pub mod Buffer
pub mod DoneGuard
pub mod EchoServer
pub mod EventLoop
pub mod Http
pub mod Logging
pub mod PbClient
pub mod PbServer
pub mod Protocol
pub mod Protocols
pub mod RemoteCall
pub mod Simple
pub mod Socket
pub mod StatusManager
pub mod TcpConnection
pub mod TcpServer
pub mod TimeStamp
pub mod TimerManager
mod Tests
