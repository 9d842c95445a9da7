-- ===== src/PbClient/Done.antt =====
-- The end of an asynchronous call, in either protocol.
use small_rpc.Prelude.{◌^◌, ◌<◌, ◌≡◌, true, ◌++◌, length, Bytes}
use small_rpc.Buffer.{Buffer}
use small_rpc.Buffer.Contents.{Holds}
use small_rpc.EventLoop.{Epoll}
use small_rpc.EventLoop.Watch.{IsSynced}
use small_rpc.Http.Wire.{line, status_line, headers}
use small_rpc.PbClient.{PbClient}
use small_rpc.PbClient.CallHttp.{http_context, parse_response_then}
use small_rpc.PbClient.Session.{
  fresh_context, Answers, Arrived, Finishes, parse_response-Answers,
  data_read_callback-asynchronous,
}
use small_rpc.Protocol.{Context}
use small_rpc.Protocols.{AnyContext}
use small_rpc.TcpConnection.{TcpConnection}

pub data Spoken : Type 0 where
  over_simple over_http : Spoken

-- A context that has begun no response, and a buffer with a whole response in front of other bytes.
abbrev pub begun_by : Spoken → Context → AnyContext
begun_by over_simple base = fresh_context base
begun_by over_http base = http_context base

abbrev pub HasResponse : Spoken → Context → Bytes → Buffer → Type 0
HasResponse over_simple answer rest b = (length answer.payload < 2 ^ 32) × Arrived answer rest b
HasResponse over_http answer rest b =
    (length (answer.payload ++ rest) < 2 ^ 31)
    × Holds b (line status_line (headers answer (answer.payload ++ rest)))

HasResponse-Answers :
    (spoken : Spoken) (answer base : Context) (rest : Bytes) (b : Buffer)
    → HasResponse spoken answer rest b
    → Answers (begun_by spoken base) answer.payload b
HasResponse-Answers over_simple answer base rest b (fits, h) =
    parse_response-Answers answer base rest fits h
HasResponse-Answers over_http answer base rest b (fits, h) =
    parse_response_then answer base rest fits h

-- When a whole response has arrived, in the simple protocol with a payload below 2 ^ 32 bytes or as packed
-- over HTTP with fewer than 2 ^ 31 bytes from the payload on, for an asynchronous call that has begun no response yet,
-- and epoll watches what the client believes, its payload is handed to the caller's message, the
-- caller's closure runs once, context and session are gone, and epoll no longer watches the client.
pub data_read_callback-done :
    {K D : Type 0} (E : Epoll K) (spoken : Spoken) (answer base : Context) (rest : Bytes) (d : D)
    (c : TcpConnection) (w : PbClient K D)
    → HasResponse spoken answer rest c.rbuf
    → w.has_loop ≡ true
    → IsSynced E c.channel w.kernel
    → Finishes E (begun_by spoken base) answer.payload d c w
data_read_callback-done E spoken answer base rest d c w has looped synced =
    data_read_callback-asynchronous E (begun_by spoken base) answer.payload d c w
      (HasResponse-Answers spoken answer base rest c.rbuf has) looped synced
