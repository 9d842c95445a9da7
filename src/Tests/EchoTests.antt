-- ===== src/Tests/EchoTests.antt =====
-- examples/echo/server.cpp at concrete inputs.
use small_rpc.Prelude.{
  ◌^◌, ◌<◌, ◌≡◌, refl, arith, [], ◌∷◌, Bytes, codes, length, Option, none, some, pos, returns,
}
use small_rpc.EchoServer.{
  echo_response, EchoRequest, set_up-IsEchoServer, Codec, text, asked, reply, echo_call, set_up,
  Replies, set_up-data_read_callback,
}
use small_rpc.Http.Text.{decimal, digits_onto}
use small_rpc.Http.Wire.{headers}
use small_rpc.PbServer.{PbServer}
use small_rpc.PbServer.Handlers.{data_read_callback}
use small_rpc.Protocol.{single}
use small_rpc.TcpConnection.{TcpConnection}
use small_rpc.Tests.ConnectionTests.{conn, world, made}
use small_rpc.Tests.HttpCallTests.{roomy, roomy-Holds}
use small_rpc.Tests.Kernel.{table}
use small_rpc.Tests.SimpleTests.{filled, filled-Holds}

-- A message is its `logid`, in one byte, and its text.
parse_byte : Bytes → Option EchoRequest
parse_byte [] = none
parse_byte (n ∷ message) = some (record { logid = n; message = message })

abbrev bytes_codec : Codec
bytes_codec = record { parse = parse_byte; serialize = λ r. r.logid ∷ r.result }

set_up_run : (s : PbServer) × (set_up bytes_codec (pos 2000) (pos 2000) ≡ returns s)
set_up_run =
    let (s, done, _, _, _) = set_up-IsEchoServer bytes_codec (pos 2000) (pos 2000) in (s, done)

abbrev payload : Bytes
payload = 7 ∷ codes "hello"

payload_parses : parse_byte payload ≡ some (record { logid = 7; message = codes "hello" })
unfolding parse_byte
payload_parses = refl

abbrev asking : TcpConnection
asking = record conn {
  context = none;
  rbuf = filled (asked text (echo_call single payload) []);
  wbuf = roomy;
}

asked_short : length (asked text (echo_call single payload) []) < 2 ^ 63
unfolding headers decimal digits_onto
asked_short = omega arith

set_up-data_read_callback_example :
    Replies table asking.address world.el.funcs
      (reply text (echo_call single payload) (7 ∷ codes "hello powered by EchoService"))
      (data_read_callback table set_up_run.0 made asking world)
unfolding echo_response
set_up-data_read_callback_example =
    set_up-data_read_callback table bytes_codec (pos 2000) (pos 2000) text set_up_run.0 single
      payload [] (record { logid = 7; message = codes "hello" }) made asking world set_up_run.1
      payload_parses (omega arith) (omega arith) refl refl
      (filled-Holds (asked text (echo_call single payload) []) asked_short) roomy-Holds refl
      (omega arith) (omega arith)
