-- ===== src/Tests/OverHttpTests.antt =====
-- A client that calls a server over HTTP, at concrete inputs.
use small_rpc.Prelude.{
  ◌^◌, ◌<◌, ◌≡◌, refl, sym, subst, arith, true, false, [], ◌∷◌, ◌++◌, length, replicate, ℕ, Bytes,
  codes, none, some, returns,
}
use small_rpc.Buffer.{Buffer, clear}
use small_rpc.Buffer.Contents.{Holds, outgoing}
use small_rpc.Buffer.Socket.{took, came}
use small_rpc.Buffer.Socket.Stream.{Extra, outgoing-Extra}
use small_rpc.Http.Pack.{request_head}
use small_rpc.Http.Text.{decimal, digits_onto}
use small_rpc.Http.Wire.{headers, IsSendable}
use small_rpc.PbClient.{PbClient, PbController, start_call, call_method}
use small_rpc.PbClient.Call.{call_of, Receives}
use small_rpc.PbClient.CallHttp.{http_context, start_call-PacksHttp}
use small_rpc.PbClient.Waiting.{in_call, waiting}
use small_rpc.PbServer.Handlers.{World, data_read_callback}
use small_rpc.Protocol.{Context, single}
use small_rpc.Protocols.{http_protocol}
use small_rpc.RemoteCall.OverHttp.{call_over_http}
use small_rpc.TcpConnection.{TcpConnection}
use small_rpc.Tests.ClientTests.{client, echo, echo_server, echo_known}
use small_rpc.Tests.ConnectionTests.{conn, world, made}
use small_rpc.Tests.HttpCallTests.{roomy, roomy-Holds}
use small_rpc.Tests.Kernel.{Table, table}
use small_rpc.Tests.SimpleTests.{filled, filled-Holds}

abbrev cntl : PbController
cntl = record { conn_type = single }

abbrev sent_call : Context
sent_call = call_of cntl (codes "S") (codes "m") (codes "hi")

sent_call-IsSendable : IsSendable sent_call
sent_call-IsSendable = record {
  no_slash = omega arith;
  service_no_space = omega arith;
  method_no_space = omega arith;
  service_no_return = omega arith;
  method_no_return = omega arith;
  line_fits = omega arith;
  payload_fits = omega arith;
}

-- A read buffer with room for the response.
abbrev wide : Buffer
wide = record (filled []) { storage = replicate 120 0 }

wide-Holds : Holds wide []
wide-Holds = record {
  dead = [];
  room = replicate 120 0;
  splits = refl;
  starts = refl;
  ends = refl;
  fits = omega arith;
}

abbrev caller : TcpConnection
caller = record conn {
  channel = record { fd = 5; event = 0; sevent = 0 };
  context = none;
  rbuf = wide;
  wbuf = roomy;
}

abbrev over_http : PbClient Table ℕ
over_http = record (client false) { protocol = some http_protocol }

-- What the client packs, and its arrival at the server.
sent_packed :
    (wbuf : Buffer) × (start_call table cntl
        (codes "S")
        (codes "m")
        (codes "hi")
        none
        caller
        over_http
      ≡ returns (
        true,
        in_call (http_context sent_call) (record caller { rbuf = clear wide; wbuf = wbuf }),
        waiting none over_http,
      ))
    × Holds wbuf (request_head sent_call)
    × Extra wbuf (codes "hi")
sent_packed =
    start_call-PacksHttp table cntl (codes "S") (codes "m") (codes "hi") none caller over_http refl
      (omega arith) roomy-Holds (omega arith) (omega arith)

abbrev wire : Bytes
wire = request_head sent_call ++ codes "hi"

wire_fits : length wire < 2 ^ 63
unfolding headers decimal digits_onto
wire_fits = omega arith

wire_arrives : Holds (filled wire) (outgoing sent_packed.0)
wire_arrives =
    subst (Holds (filled wire)) (sym (outgoing-Extra sent_packed.2 sent_packed.3))
      (filled-Holds wire wire_fits)

abbrev callee : TcpConnection
callee = record conn { context = none; rbuf = filled wire; wbuf = roomy }

call_over_http_example :
    (sc' : TcpConnection) × (sw' : World Table) × (data_read_callback table echo_server made callee
        world
      ≡ returns (some sc', sw'))
    × Receives table (codes "hi!") over_http (
        call_method table cntl
          (codes "S")
          (codes "m")
          (codes "hi")
          none
          ((took (length (request_head sent_call)), took 2) ∷ [])
          (came (outgoing sc'.wbuf) ∷ [])
          caller
          over_http)
call_over_http_example =
    call_over_http table table echo_server [] made echo (codes "hi!") callee world cntl (codes "S")
      (codes "m") (codes "hi") caller
      (in_call (http_context sent_call) (record caller { rbuf = clear wide; wbuf = sent_packed.0 }))
      over_http (waiting none over_http) refl refl refl sent_call-IsSendable roomy-Holds
      (omega arith) (omega arith) wide-Holds (omega arith) (omega arith) (omega arith) sent_packed.1
      refl refl refl wire_arrives echo_known refl roomy-Holds refl (omega arith) (omega arith)
