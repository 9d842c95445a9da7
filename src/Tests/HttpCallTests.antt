-- ===== src/Tests/HttpCallTests.antt =====
-- A call over HTTP, at concrete inputs.
use small_rpc.Prelude.{
  List, ◌^◌, ◌<◌, ◌≡◌, ◌∙◌, refl, sym, subst, arith, [], ◌∷◌, ◌++◌, append-nil, length, replicate,
  Bytes, codes, returns,
}
use small_rpc.Buffer.{Buffer}
use small_rpc.Buffer.Contents.{Holds, outgoing}
use small_rpc.Http.{pack_request, pack_response, parse_request, parse_response}
use small_rpc.Http.Pack.{pack_request-sends, pack_response-sends}
use small_rpc.Http.RoundTrip.{before_line, ReadsPayload, request_round_trip, response_round_trip}
use small_rpc.Http.State.{HttpContext, HttpParsed, new_http}
use small_rpc.Http.Text.{decimal, digits_onto}
use small_rpc.Http.Stored.{kept_type}
use small_rpc.Http.Stream.{seen, receive, receive-parse_request}
use small_rpc.Buffer.Packed.{join}
use small_rpc.Http.Wire.{IsSendable, line, request_line, status_line, headers}
use small_rpc.Protocol.{ok, single, success}
use small_rpc.Tests.SimpleTests.{call, filled, filled-Holds}

-- A buffer of a hundred bytes to pack the call into.
abbrev pub roomy : Buffer
roomy = record (filled []) { storage = replicate 100 0 }

pub roomy-Holds : Holds roomy []
roomy-Holds = record {
  dead = [];
  room = replicate 100 0;
  splits = refl;
  starts = refl;
  ends = refl;
  fits = omega arith;
}

call-IsSendable : IsSendable call
call-IsSendable = record {
  no_slash = omega arith;
  service_no_space = omega arith;
  method_no_space = omega arith;
  service_no_return = omega arith;
  method_no_return = omega arith;
  line_fits = omega arith;
  payload_fits = omega arith;
}

abbrev sender : HttpContext
sender = record (new_http ok) { base = call }

-- What `sender` packs, and its arrival at the other side.
request_packed :
    (w : Buffer) × (pack_request sender roomy ≡ returns w)
    × (outgoing w ≡ line (request_line call) (headers call (codes "hi")))
request_packed =
    pack_request-sends sender roomy-Holds refl (omega arith) (omega arith) (omega arith)

response_packed :
    (w : Buffer) × (pack_response sender roomy ≡ returns w)
    × (outgoing w ≡ line status_line (headers call (codes "hi")))
response_packed = pack_response-sends sender roomy-Holds refl (omega arith) (omega arith)

abbrev request_bytes : Bytes
request_bytes = line (request_line call) (headers call (codes "hi"))

abbrev response_bytes : Bytes
response_bytes = line status_line (headers call (codes "hi"))

request_short : length request_bytes < 2 ^ 63
unfolding headers decimal digits_onto
request_short = omega arith

response_short : length response_bytes < 2 ^ 63
unfolding headers decimal digits_onto
response_short = omega arith

request_arrives : Holds (filled request_bytes) (outgoing request_packed.0 ++ [])
request_arrives =
    subst (Holds (filled request_bytes))
      (sym (append-nil (outgoing request_packed.0) ∙ request_packed.2))
      (filled-Holds request_bytes request_short)

response_arrives : Holds (filled response_bytes) (outgoing response_packed.0 ++ [])
response_arrives =
    subst (Holds (filled response_bytes))
      (sym (append-nil (outgoing response_packed.0) ∙ response_packed.2))
      (filled-Holds response_bytes response_short)

request_round_trip_example :
    (p : HttpParsed) × (parse_request (before_line (new_http ok)) (filled request_bytes)
      ≡ returns p)
    × (p.context.base.service ≡ codes "S")
    × (p.context.base.method ≡ codes "m")
    × ReadsPayload call (new_http ok).base.conn_type [] p
request_round_trip_example =
    request_round_trip sender (new_http ok) [] roomy-Holds refl (omega arith) call-IsSendable
      (omega arith) (omega arith) request_packed.1 request_arrives

response_round_trip_example :
    (p : HttpParsed) × (parse_response (before_line (new_http ok)) (filled response_bytes)
      ≡ returns p)
    × ReadsPayload call (new_http ok).base.conn_type [] p
response_round_trip_example =
    response_round_trip sender (new_http ok) [] roomy-Holds refl (omega arith) (omega arith)
      (omega arith) response_packed.1 response_arrives

-- The text of the call in three pieces, the first of which ends between the two bytes of a line end.
abbrev pieces : List Bytes
pieces =
    codes "POST /S/m HTTP/1.1\r"
    ∷ codes "\nConnection: Keep-Alive\r\nContent-Type: application/da"
    ∷ codes "ta\r\nContent-Length: 2\r\n\r\nhi"
    ∷ []

pieces-join : join pieces ≡ request_bytes
unfolding headers decimal digits_onto
pieces-join = refl

abbrev wide : Buffer
wide = record (filled []) { storage = replicate 128 0 }

wide-Holds : Holds wide []
wide-Holds = record {
  dead = [];
  room = replicate 128 0;
  splits = refl;
  starts = refl;
  ends = refl;
  fits = omega arith;
}

receive-parse_request_example :
    (seen (receive (before_line (new_http ok)) wide pieces)
      ≡ seen (parse_request (before_line (new_http ok)) (filled (join pieces))))
    × (seen (parse_request (before_line (new_http ok)) (filled (join pieces)))
        ≡ returns (
          success,
          codes "S",
          codes "m",
          kept_type single (new_http ok).base.conn_type,
          codes "hi",
        ))
receive-parse_request_example =
    receive-parse_request call (new_http ok) pieces call-IsSendable wide-Holds pieces-join
      ((λ e. cc), ((λ e. cc), ((λ e. cc), tt))) (omega arith)
      (filled-Holds (join pieces) (omega arith))
