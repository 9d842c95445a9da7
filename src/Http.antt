-- ===== src/Http.antt =====
-- protocols/http.h and protocols/http.cpp: the HTTP protocol. `Text` has the string functions that it
-- uses, `State` the context, `Line` the request line, `Header` the header lines; here are the body,
-- the loops over the stages and the packers.
pub mod Text
pub mod State
pub mod Line
pub mod Header
pub mod Ends
pub mod Body
pub mod Whole
pub mod Endless
pub mod Decimal
pub mod Wire
pub mod Found
pub mod FirstLine
pub mod Lines
pub mod Short
pub mod Pieces
pub mod Stages
pub mod Resume
pub mod Stream
pub mod Stored
pub mod Pack
pub mod RoundTrip
use small_rpc.Prelude.{
  ℕ, zero, suc, ◌+◌, ◌-◌, ◌%◌, ◌^◌, [], ◌∷◌, Bytes, length, codes, ltb_ℤ, ◌==◌, if◌then◌else◌, ℤ,
  pos, negsuc, int_of, Run, returns, out_of_fuel, fault, ◌>>=◌,
}
use small_rpc.Buffer.{Buffer, readable, append_chars, append_string, append_extra, view_at}
use small_rpc.Protocol.{
  ConnType, short, single, pool, ParseProtocolStatus, success, error, no_enough_data, part_success,
  try_another_protocol,
}
use Header.{parse_headers}
use Line.{parse_request_line, parse_response_line}
use State.{HttpContext, HttpParsed, answer}
use Text.{decimal}

-- An `int` as a `size_t`.
unfoldable pub size_of_int : ℤ → ℕ
size_of_int (pos n) = n
size_of_int (negsuc n) = 2 ^ 64 - n - 1

-- `_parse_body`: the body stays in the buffer.
unfoldable pub parse_body : HttpContext → Buffer → Run HttpParsed
parse_body c b =
    if ltb_ℤ (int_of (readable b)) c.body_size
    then answer no_enough_data c b
    else answer part_success
        (record c {
          base = record c.base { payload_view = view_at b.rindex (size_of_int c.body_size) };
        })
        b

-- The stage of the context, with the given parser of the first line.
unfoldable pub run_stage :
    (HttpContext → Buffer → Run HttpParsed) → HttpContext → Buffer → Run HttpParsed
run_stage first_line c b =
    if c.stage == 0
    then first_line c b
    else if c.stage == 1
    then parse_headers c b
    else if c.stage == 2
    then parse_body c b
    else answer success c b

-- `++_stage` after a part that succeeded.
abbrev pub next_stage : HttpContext → HttpContext
next_stage c = record c { stage = suc c.stage }

-- `while (true)` on fuel.
unfoldable pub stages :
    (HttpContext → Buffer → Run HttpParsed) → ℕ → HttpContext → Buffer → Run HttpParsed
stages first_line zero c b = out_of_fuel
stages first_line (suc fuel) c b = run_stage first_line c b >>= λ p. elim p.status [
  | part_success ↦ stages first_line fuel (next_stage p.context) p.rest
  | success ↦ returns p
  | error ↦ returns p
  | no_enough_data ↦ returns p
  | try_another_protocol ↦ returns p
]

-- `HTTPContext::parse_request` and `parse_response`
unfoldable pub parse_request : HttpContext → Buffer → Run HttpParsed
parse_request = stages parse_request_line 4

unfoldable pub parse_response : HttpContext → Buffer → Run HttpParsed
parse_response = stages parse_response_line 4

abbrev pub connection_line : ConnType → Bytes
connection_line short = codes "Connection: Close\r\n"
connection_line single = codes "Connection: Keep-Alive\r\n"
connection_line pool = codes "Connection: Keep-Alive\r\n"

-- `pack_response` and `pack_request`; the result `true` is left out.
unfoldable pub pack_response : HttpContext → Buffer → Run Buffer
pack_response c b = do
  b1 ← append_chars b (codes "HTTP/1.1 200 OK\r\n")
  b2 ← append_chars b1 (connection_line c.base.conn_type)
  b3 ← append_chars b2 (codes "Content-Type: application/data\r\n")
  b4 ← append_chars b3 (codes "Content-Length: ")
  b5 ← append_string b4 (decimal (length c.base.payload))
  b6 ← append_chars b5 (codes "\r\n\r\n")
  returns (append_extra b6 c.base.payload)

unfoldable pub pack_request : HttpContext → Buffer → Run Buffer
pack_request c b = do
  b1 ← append_chars b (codes "POST /")
  b2 ← append_string b1 c.base.service
  b3 ← append_chars b2 (codes "/")
  b4 ← append_string b3 c.base.method
  b5 ← append_chars b4 (codes " HTTP/1.1\r\n")
  b6 ← append_chars b5 (connection_line c.base.conn_type)
  b7 ← append_chars b6 (codes "Content-Type: application/data\r\n")
  b8 ← append_chars b7 (codes "Content-Length: ")
  b9 ← append_string b8 (decimal (length c.base.payload))
  b10 ← append_chars b9 (codes "\r\n\r\n")
  returns (append_extra b10 c.base.payload)
