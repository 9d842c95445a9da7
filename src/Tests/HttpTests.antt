-- ===== src/Tests/HttpTests.antt =====
-- protocols/http.cpp at concrete inputs: tests/test_http_protocol.cpp.
use small_rpc.Prelude.{
  ℕ, ◌≡◌, ◌⊎◌, ltb, if◌then◌else◌, negsuc, arith, refl, [], codes, Run, returns, fault, ◌>>=◌,
  Bytes, length,
}
use small_rpc.Buffer.{
  Buffer, readable, retrieve, read_range, find_crlf, find_pair, mem_chr, scan_chr, view_at,
  view_str, null_view,
}
use small_rpc.Buffer.Contents.{Holds}
use small_rpc.Http.Body.{parse_body_negative}
use small_rpc.Http.Ends.{Ends}
use small_rpc.Http.Endless.{HasLine, parse_request-HasLine}
use small_rpc.Http.Whole.{Settles}
use small_rpc.Http.Header.{
  has_header, set_body_size, apply_header, store_header, cut_header, headers_loop, parse_headers,
}
use small_rpc.Http.Line.{
  byte_at, find_from, parse_version, split_url, take_url, parse_url, parse_target, parse_method,
  with_line, parse_request_line,
}
use small_rpc.Http.State.{
  answer, http_methods, find_method, match_method, new_http, HttpContext, HttpParsed,
}
use small_rpc.Http.Text.{
  same_bytes, starts_with, trim, trim_left, trim_right, is_empty, stoi, skip_space, is_space,
  after_sign, signed_value, starts_digit, is_digit, digits_value,
}
use small_rpc.Http.{parse_request, stages, run_stage, parse_body, size_of_int}
use small_rpc.Protocol.{
  ok, part_success, no_enough_data, error, success, short, ParseProtocolStatus, ConnType,
  new_context,
}

opened : ℕ
unfolding has_header set_body_size apply_header store_header cut_header headers_loop parse_headers
    byte_at find_from parse_version split_url take_url parse_url parse_target parse_method with_line
    parse_request_line http_methods find_method match_method new_http same_bytes starts_with trim
    trim_left trim_right is_empty stoi skip_space is_space after_sign signed_value starts_digit
    is_digit digits_value parse_request stages run_stage parse_body size_of_int readable retrieve
    read_range find_crlf find_pair mem_chr scan_chr view_at view_str null_view new_context
opened = 0

abbrev received : Bytes → Buffer
received bytes = record {
  rindex = 0;
  windex = length bytes;
  storage = bytes;
  extra_index = 0;
  extra_data = [];
}

outcome : Bytes → Run (ParseProtocolStatus × ConnType × Bytes × Bytes × Bytes)
outcome bytes = do
  p ← parse_request (new_http ok) (received bytes)
  body ← view_str p.context.base.payload_view p.rest
  returns (p.status, p.context.base.conn_type, p.context.base.service, p.context.base.method, body)

-- The connection type stays short: the test compares the header's value with its case.
request_parses :
    outcome (
      codes
        "GET /hello/world HTTP/1.1\r\nContent-Length: 10\r\nConnection: Keep-alive\r\n\r\nhelloworld")
    ≡ returns (success, short, codes "hello", codes "world", codes "helloworld")
unfolding opened outcome
request_parses = refl

-- A body size that is no number ends the program.
bad_length_faults : outcome (codes "GET /a/b HTTP/1.1\r\nContent-Length: x\r\n\r\n") ≡ fault
unfolding opened outcome
bad_length_faults = refl

-- The header lines of a request, its first line taken.
abbrev header_lines : Bytes
header_lines = codes "Content-Length: 10\r\nConnection: Close\r\n\r\nhelloworld"

header_lines-Holds : Holds (received header_lines) header_lines
header_lines-Holds = record {
  dead = [];
  room = [];
  splits = refl;
  starts = refl;
  ends = refl;
  fits = omega arith;
}

parse_request-HasLine_example :
    Ends (Settles (new_http ok).stage) (parse_request (new_http ok) (received header_lines))
    × (HasLine (new_http ok) header_lines
        ⊎ (parse_request (new_http ok) (received header_lines)
            ≡ answer
                (if ltb (length header_lines) 65536 then no_enough_data else error)
                (new_http ok)
                (received header_lines)))
parse_request-HasLine_example =
    parse_request-HasLine (new_http ok) (received header_lines) header_lines header_lines-Holds

-- A body size of -1.
abbrev below_zero : HttpContext
below_zero = record (new_http ok) { body_size = negsuc 0 }

parse_body_negative_example :
    (p : HttpParsed) × (parse_body below_zero (received header_lines) ≡ returns p)
    × (p.status ≡ part_success)
    × (view_str p.context.base.payload_view p.rest ≡ fault)
parse_body_negative_example =
    parse_body_negative below_zero 0 header_lines-Holds (omega arith) refl (omega arith)
