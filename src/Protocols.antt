-- ===== src/Protocols.antt =====
-- `SimpleProtocol::parse_request` and `HTTPProtocol::parse_request`: a protocol makes the context of a
-- connection when the first bytes are its own, and parses with it. The pointer to the context slot
-- is never null where they are called, and a fresh context's status is taken to be `ok`.
use small_rpc.Prelude.{
  ℕ, drop, ltb, ◌==◌, if◌then◌else◌, Bytes, codes, Option, none, some, Run, returns, ◌>>=◌,
}
use small_rpc.Buffer.{Buffer, readable, peek_uint32}
use small_rpc.Http
use small_rpc.Http.State.{HttpContext, new_http, match_method}
use small_rpc.Protocol.{
  Context, ok, ParseProtocolStatus, error, no_enough_data, try_another_protocol,
}
use small_rpc.Simple
use small_rpc.Simple.{SimpleContext, magic_num, new_simple}

-- The subclasses of `Context`.
pub data AnyContext : Type 0 where
  simple : SimpleContext → AnyContext
  http : HttpContext → AnyContext

abbrev pub base_of : AnyContext → Context
base_of (simple c) = c.base
base_of (http c) = c.base

abbrev pub set_base : AnyContext → Context → AnyContext
set_base (simple c) base = simple (record c { base = base })
set_base (http c) base = http (record c { base = base })

-- The virtual `pack_response` and `pack_request`.
unfoldable pub pack_response : AnyContext → Buffer → Run Buffer
pack_response (simple c) b = Simple.pack_response c b
pack_response (http c) b = Http.pack_response c b

unfoldable pub pack_request : AnyContext → Buffer → Run Buffer
pack_request (simple c) b = Simple.pack_request c b
pack_request (http c) b = Http.pack_request c b

-- A status, the context slot and the buffer.
pub record Outcome : Type 0 where
  pub status : ParseProtocolStatus
  pub slot : Option AnyContext
  pub rest : Buffer

abbrev pub gives : ParseProtocolStatus → Option AnyContext → Buffer → Run Outcome
gives s slot b = returns (record { status = s; slot = slot; rest = b })

unfoldable pub run_simple : SimpleContext → Buffer → Run Outcome
run_simple c b = do p ← Simple.parse_request c b; gives p.status (some (simple p.context)) p.rest

unfoldable pub run_http : HttpContext → Buffer → Run Outcome
run_http c b = do p ← Http.parse_request c b; gives p.status (some (http p.context)) p.rest

-- `SimpleProtocol::parse_request`
unfoldable pub simple_start : Buffer → Run Outcome
simple_start b = if ltb (readable b) 4 then gives no_enough_data none b else do
  magic ← peek_uint32 b
  if magic == magic_num then run_simple (new_simple ok) b else gives try_another_protocol none b

unfoldable pub simple_parse : Buffer → Option AnyContext → Run Outcome
simple_parse b none = simple_start b
simple_parse b (some (simple c)) = run_simple c b
simple_parse b (some (http c)) = gives error (some (http c)) b

abbrev pub http_method_max_len : ℕ
http_method_max_len = 7

-- `HTTPProtocol::parse_request`
unfoldable pub http_start : Buffer → Run Outcome
http_start b = if ltb (readable b) http_method_max_len then gives no_enough_data none b else do
  hit ← match_method (drop b.rindex b.storage)
  elim hit [ none ↦ gives try_another_protocol none b | some m ↦ run_http (new_http ok) b ]

unfoldable pub http_parse : Buffer → Option AnyContext → Run Outcome
http_parse b none = http_start b
http_parse b (some (http c)) = run_http c b
http_parse b (some (simple c)) = gives error (some (simple c)) b

-- The virtual `parse_response`.
unfoldable pub parse_response : AnyContext → Buffer → Run Outcome
parse_response (simple c) b = do
  p ← Simple.parse_response c b
  gives p.status (some (simple p.context)) p.rest
parse_response (http c) b = do
  p ← Http.parse_response c b
  gives p.status (some (http p.context)) p.rest

-- `Protocol`: its name, its `new_context` and its `parse_request`.
pub record Protocol : Type 0 where
  pub name : Bytes
  pub new_context : AnyContext
  pub parse : Buffer → Option AnyContext → Run Outcome

unfoldable pub simple_protocol : Protocol
simple_protocol = record {
  name = codes "simple_proto";
  new_context = simple (new_simple ok);
  parse = simple_parse;
}

unfoldable pub http_protocol : Protocol
http_protocol = record { name = codes "HTTP"; new_context = http (new_http ok); parse = http_parse }
