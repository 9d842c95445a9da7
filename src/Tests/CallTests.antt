-- ===== src/Tests/CallTests.antt =====
-- A call of a client to a server at concrete inputs.
use small_rpc.Buffer.Contents.{Holds, outgoing}
use small_rpc.Buffer.Socket.Stream.{Extra, outgoing-Extra}
use small_rpc.Buffer.Socket.{took, came}
use small_rpc.Buffer.{Buffer, clear}
use small_rpc.PbClient.Session.{fresh_context}
use small_rpc.PbClient.Waiting.{in_call, waiting}
use small_rpc.PbClient.Call.{call_of, Receives, start_call-Packs}
use small_rpc.PbClient.{PbController, start_call, call_method}
use small_rpc.PbServer.Handlers.{World, data_read_callback}
use small_rpc.Prelude.{
  ◌^◌, ◌<◌, ◌≡◌, refl, sym, subst, arith, false, true, [], ◌∷◌, ◌++◌, length, replicate, be_bytes,
  Bytes, codes, none, some, returns,
}
use small_rpc.Protocol.{Context, single}
use small_rpc.Protocols.{http_protocol}
use small_rpc.RemoteCall.{call_method-data_read_callback}
use small_rpc.Simple.Wire.{IsSendable, request_head}
use small_rpc.TcpConnection.{TcpConnection}
use small_rpc.Tests.ClientTests.{client, echo, echo_server, echo_known}
use small_rpc.Tests.ConnectionTests.{conn, world, made}
use small_rpc.Tests.Kernel.{Table, table}
use small_rpc.Tests.SimpleTests.{filled, filled-Holds, small, small-Holds}

abbrev cntl : PbController
cntl = record { conn_type = single }

abbrev sent_call : Context
sent_call = call_of cntl (codes "S") (codes "m") (codes "hi")

sent_call-IsSendable : IsSendable sent_call
sent_call-IsSendable = record {
  no_slash = omega arith;
  path_fits = omega arith;
  payload_fits = omega arith;
}

-- An empty buffer with forty bytes of room, and a client that has nothing to send.
abbrev roomy : Buffer
roomy = record {
  rindex = 0;
  windex = 0;
  storage = replicate 40 0;
  extra_index = 0;
  extra_data = [];
}

roomy-Holds : Holds roomy []
roomy-Holds = record {
  dead = [];
  room = replicate 40 0;
  splits = refl;
  starts = refl;
  ends = refl;
  fits = omega arith;
}

abbrev caller : TcpConnection
caller = record conn {
  channel = record { fd = 5; event = 0; sevent = 0 };
  context = none;
  rbuf = roomy;
  wbuf = small;
}

-- What the client packs, and its arrival at the server.
sent_packed :
    (wbuf : Buffer) × (start_call table cntl
        (codes "S")
        (codes "m")
        (codes "hi")
        none
        caller
        (client false)
      ≡ returns (
        true,
        in_call (fresh_context sent_call) (record caller { rbuf = clear roomy; wbuf = wbuf }),
        waiting none (client false),
      ))
    × Holds wbuf (request_head sent_call)
    × Extra wbuf (codes "hi")
sent_packed =
    start_call-Packs table cntl (codes "S") (codes "m") (codes "hi") none caller (client false) refl
      sent_call-IsSendable small-Holds (omega arith) (omega arith)

abbrev wire : Bytes
wire = request_head sent_call ++ codes "hi"

wire_fits : length wire < 2 ^ 63
unfolding request_head be_bytes
wire_fits = omega arith

wire_arrives : Holds (filled wire) (outgoing sent_packed.0)
wire_arrives =
    subst (Holds (filled wire)) (sym (outgoing-Extra sent_packed.2 sent_packed.3))
      (filled-Holds wire wire_fits)

abbrev callee : TcpConnection
callee = record conn { context = none; rbuf = filled wire; wbuf = small }

call_method-data_read_callback_example :
    (sc' : TcpConnection) × (sw' : World Table) × (data_read_callback table echo_server made callee
        world
      ≡ returns (some sc', sw'))
    × Receives table (codes "hi!") (client false) (
        call_method table cntl
          (codes "S")
          (codes "m")
          (codes "hi")
          none
          ((took (length (request_head sent_call)), took 2) ∷ [])
          (came (outgoing sc'.wbuf) ∷ [])
          caller
          (client false))
call_method-data_read_callback_example =
    call_method-data_read_callback table table echo_server (http_protocol ∷ []) made echo
      (codes "hi!") callee world cntl (codes "S") (codes "m") (codes "hi") caller
      (in_call (fresh_context sent_call)
        (record caller { rbuf = clear roomy; wbuf = sent_packed.0 }))
      (client false) (waiting none (client false)) refl refl refl sent_call-IsSendable small-Holds
      (omega arith) (omega arith) roomy-Holds (omega arith) (omega arith) (omega arith)
      sent_packed.1 refl refl refl wire_arrives echo_known refl small-Holds refl (omega arith)
      (omega arith)
