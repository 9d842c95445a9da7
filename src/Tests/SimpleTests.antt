-- ===== src/Tests/SimpleTests.antt =====
-- protocols/simple.cpp at concrete inputs: tests/test_simple_protocol.cpp.
use small_rpc.Prelude.{
  ℕ, false, ◌<◌, ◌∙◌, ◌+◌, ◌-◌, ◌^◌, ◌≡◌, refl, [], ◌∷◌, ◌++◌, codes, be_bytes, be_word, Run,
  returns, ◌>>=◌, Bytes, arith, replicate, length, subst, sym, append-nil,
}
use small_rpc.Buffer.{
  Buffer, new, append_uint32, append_string, view_str, retrieve, readable, peek_uint32, append_mem,
  copy_in, write_at, read_range, writeable, mem_chr, scan_chr, view_here, new_sized, null_view,
}
use small_rpc.Buffer.Contents.{Holds, outgoing}
use small_rpc.Protocol.{
  ok, single, success, conn_type_of, ParseProtocolStatus, Context, new_context,
}
use small_rpc.Simple.{
  parse_request, parse_response, new_simple, magic_num, SimpleContext, pack_request, pack_response,
  request_round, rounds, parse_magic, parse_conn_type, take_conn_type, parse_path, take_path,
  split_path, parse_payload, take_payload, go_on,
}
use small_rpc.Simple.Loop.{Ends, parse_request-Ends}
use small_rpc.Simple.Overrun.{parse_path_overrun}
use small_rpc.Simple.Pack.{pack_request-outgoing, pack_response-outgoing}
use small_rpc.Simple.RoundTrip.{
  ReadsRequest, ReadsResponse, parse_request-pack_request, parse_response-pack_response,
}
use small_rpc.Simple.Wire.{IsSendable, request_head, response_head}

-- A list of names that a run computes through.
opened : ℕ
unfolding parse_request request_round rounds parse_magic parse_conn_type take_conn_type parse_path
    take_path split_path parse_payload take_payload readable peek_uint32 read_range retrieve mem_chr
    scan_chr view_here view_str conn_type_of new_simple new_context null_view append_uint32
    append_string append_mem copy_in write_at writeable be_bytes be_word new new_sized
opened = 0

request : Run Buffer
request = do
  b1 ← append_uint32 new magic_num
  b2 ← append_uint32 b1 0
  b3 ← append_uint32 b2 16
  b4 ← append_string b3 (codes "EchoService/echo")
  b5 ← append_uint32 b4 10
  append_string b5 (codes "helloworld")

outcome : Run (ParseProtocolStatus × Bytes × Bytes × Bytes)
outcome = do
  b ← request
  p ← parse_request (new_simple ok) b
  payload ← view_str p.context.base.payload_view p.rest
  returns (p.status, p.context.base.service, p.context.base.method, payload)

request_parses : outcome ≡ returns (success, codes "EchoService", codes "echo", codes "helloworld")
unfolding opened request outcome
request_parses = refl

-- A call, a buffer of ten bytes to pack it into, and the context of the other side.
abbrev pub call : Context
call = record {
  conn_type = single;
  rpc_status = ok;
  service = codes "S";
  method = codes "m";
  payload_view = record { is_bound = false; first = 0; last = 0 };
  payload = codes "hi";
}

abbrev sender : SimpleContext
sender = record { base = call; stage = 0 }

abbrev pub small : Buffer
small = record {
  rindex = 0;
  windex = 0;
  storage = replicate 10 0;
  extra_index = 0;
  extra_data = [];
}

abbrev pub filled : Bytes → Buffer
filled bytes = record {
  rindex = 0;
  windex = length bytes;
  storage = bytes;
  extra_index = 0;
  extra_data = [];
}

pub small-Holds : Holds small []
small-Holds = record {
  dead = [];
  room = replicate 10 0;
  splits = refl;
  starts = refl;
  ends = refl;
  fits = omega arith;
}

pub call-IsSendable : IsSendable call
call-IsSendable = record {
  no_slash = omega arith;
  path_fits = omega arith;
  payload_fits = omega arith;
}

pub filled-Holds : (bytes : Bytes) → length bytes < 2 ^ 63 → Holds (filled bytes) bytes
filled-Holds bytes h = record {
  dead = [];
  room = [];
  splits = sym (append-nil bytes);
  starts = refl;
  ends = omega arith;
  fits = h;
}

-- What `sender` packs, and its arrival at the other side.
request_packed :
    (w : Buffer) × (pack_request sender small ≡ returns w)
    × (outgoing w ≡ [] ++ (request_head call ++ codes "hi"))
request_packed =
    pack_request-outgoing sender small-Holds refl (omega arith) call-IsSendable (omega arith)

response_packed :
    (w : Buffer) × (pack_response sender small ≡ returns w)
    × (outgoing w ≡ [] ++ (response_head call ++ codes "hi"))
response_packed =
    pack_response-outgoing sender small-Holds refl (omega arith) (omega arith) (omega arith)

request_arrives : Holds (filled (request_head call ++ codes "hi")) (outgoing request_packed.0 ++ [])
unfolding request_head be_bytes
request_arrives =
    subst (Holds (filled (request_head call ++ codes "hi")))
      (sym (append-nil (outgoing request_packed.0) ∙ request_packed.2))
      (filled-Holds (request_head call ++ codes "hi") (omega arith))

response_arrives :
    Holds (filled (response_head call ++ codes "hi")) (outgoing response_packed.0 ++ [])
unfolding response_head be_bytes
response_arrives =
    subst (Holds (filled (response_head call ++ codes "hi")))
      (sym (append-nil (outgoing response_packed.0) ∙ response_packed.2))
      (filled-Holds (response_head call ++ codes "hi") (omega arith))

parse_request-pack_request_example :
    ReadsRequest call []
      (parse_request (record { base = call; stage = 0 }) (filled (request_head call ++ codes "hi")))
parse_request-pack_request_example =
    parse_request-pack_request sender call [] small-Holds refl (omega arith) call-IsSendable
      (omega arith) request_packed.1 request_arrives

parse_response-pack_response_example :
    ReadsResponse call [] (
      parse_response
        (record { base = call; stage = 0 })
        (filled (response_head call ++ codes "hi")))
parse_response-pack_response_example =
    parse_response-pack_response sender call [] small-Holds refl (omega arith) (omega arith)
      (omega arith) response_packed.1 response_arrives

parse_request-Ends_example : Ends request_round 4 (parse_request sender small)
parse_request-Ends_example = parse_request-Ends sender small

-- A path of six bytes of which two, "XY", have not arrived.
abbrev cut_short : Buffer
cut_short = record {
  rindex = 0;
  windex = 8;
  storage = (0 ∷ 0 ∷ 0 ∷ 6 ∷ []) ++ codes "S/abXYZ";
  extra_index = 0;
  extra_data = [];
}

cut_short-Holds : Holds cut_short (be_bytes 6 ++ codes "S/ab")
unfolding be_bytes
cut_short-Holds = record {
  dead = [];
  room = codes "XYZ";
  splits = refl;
  starts = refl;
  ends = refl;
  fits = omega arith;
}

parse_path_overrun_example :
    (b' : Buffer) × (parse_path (record sender { stage = 2 }) cut_short
      ≡ returns (
          go_on
            (record {
              base = record call { service = codes "S"; method = codes "abXY" };
              stage = 3;
            })
            b'))
    × (b'.rindex ≡ b'.windex + 2)
    × (readable b' ≡ 2 ^ 64 - 2)
unfolding cut_short-Holds
parse_path_overrun_example =
    parse_path_overrun (record sender { stage = 2 }) (codes "S") (codes "ab") (codes "XY")
      (codes "Z") cut_short-Holds refl (omega arith) (λ e. cc) (omega arith) (omega arith)
