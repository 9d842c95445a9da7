-- ===== src/Http/Line.antt =====
-- `_parse_request_line` and `_parse_response_line` of protocols/http.cpp.
use small_rpc.Prelude.{
  ℕ, ◌+◌, ◌-◌, [], ◌∷◌, true, false, ◌==◌, if◌then◌else◌, min, length, drop, sub64, Option, none,
  some, Run, returns, ◌>>=◌,
}
use small_rpc.Buffer.{Buffer, readable, retrieve, find_crlf, mem_chr, read_range, view_at}
use small_rpc.Protocol.{error, no_enough_data, part_success}
use small_rpc.Http.State.{HttpContext, HttpParsed, answer, match_method}

abbrev pub max_headline_size : ℕ
max_headline_size = 65536

-- One byte of the memory, `*(begin() + offset)`.
unfoldable pub byte_at : Buffer → ℕ → Run ℕ
byte_at b offset = do
  one ← read_range b.storage (b.rindex + offset) 1
  returns (elim one [ [] ↦ 0 | c ∷ s ↦ c ])

-- A space, as an offset from `begin()`, among the bytes from `offset` to `n`.
unfoldable pub find_from : Buffer → ℕ → ℕ → ℕ → Run (Option ℕ)
find_from b c offset count = do
  hit ← mem_chr b.storage (b.rindex + offset) c count
  returns (elim hit [ none ↦ none | some i ↦ some (offset + i) ])

-- The version: all behind the second space, which may hold no third one.
unfoldable pub parse_version : HttpContext → Buffer → ℕ → ℕ → Run HttpParsed
parse_version c b n offset = do
  third ← find_from b b' ' offset (sub64 n offset)
  elim third [
    | some i ↦ answer error c b
    | none ↦
        answer part_success
          (record c {
            http_version = view_at (b.rindex + offset) (sub64 n offset);
            request_line = view_at b.rindex n;
          })
          (retrieve (n + 2) b)
  ]

-- The service and the method are the parts of the path before and behind its second slash.
unfoldable pub split_url : HttpContext → Buffer → ℕ → ℕ → Run HttpContext
split_url c b offset space = do
  slash ← find_from b b'/' (offset + 1) (sub64 space offset)
  elim slash [
    | none ↦ returns c
    | some at ↦ do
      service ← read_range b.storage (b.rindex + offset + 1) (at - offset - 1)
      method ← read_range b.storage (b.rindex + at + 1) (space - at - 1)
      returns (record c { base = record c.base { service = service; method = method } })
  ]

-- The path, from `offset` to the space at `space`.
unfoldable pub take_url : HttpContext → Buffer → ℕ → ℕ → ℕ → Run HttpParsed
take_url c b n offset space = if space == offset then answer error c b else do
  first ← byte_at b offset
  elim (first == b'/') [
    | false ↦ answer error c b
    | true ↦
        split_url (record c { http_url = view_at (b.rindex + offset) (space - offset) }) b offset
          space
        >>= λ named. parse_version named b n (space + 1)
  ]

unfoldable pub parse_url : HttpContext → Buffer → ℕ → ℕ → Run HttpParsed
parse_url c b n offset = do
  space ← find_from b b' ' offset (sub64 n offset)
  elim space [ none ↦ answer error c b | some at ↦ take_url c b n offset at ]

-- What stands behind the method's name: a space, and then the path.
unfoldable pub parse_target : HttpContext → Buffer → ℕ → ℕ → Run HttpParsed
parse_target c b n offset = do
  blank ← byte_at b offset
  if blank == b' ' then parse_url c b n (offset + 1) else answer error c b

-- The method's name. A context that already has a method keeps it where none matches.
unfoldable pub parse_method : HttpContext → Buffer → ℕ → Run HttpParsed
parse_method c b n = do
  hit ← match_method (drop b.rindex b.storage)
  elim hit [
    | some (i, name) ↦ parse_target (record c { http_method = some i }) b n (length name)
    | none ↦ elim c.http_method [ none ↦ answer error c b | some i ↦ parse_target c b n 0 ]
  ]

-- The line up to its end, with what is done once the end is found at `n`.
unfoldable pub with_line : ℕ → HttpContext → Buffer → (ℕ → Run HttpParsed) → Run HttpParsed
with_line limit c b found =
    let size = min (readable b) limit in
    if size == 0 then answer no_enough_data c b else do
      n ← find_crlf b size
      elim n [
        | some at ↦ found at
        | none ↦ answer (if size == max_headline_size then error else no_enough_data) c b
      ]

unfoldable pub parse_request_line : HttpContext → Buffer → Run HttpParsed
parse_request_line c b = with_line max_headline_size c b (parse_method c b)

-- The line of a response is skipped: its status is not read.
unfoldable pub parse_response_line : HttpContext → Buffer → Run HttpParsed
parse_response_line c b =
    with_line max_headline_size c b
      λ n. answer part_success (record c { request_line = view_at b.rindex n }) (retrieve (n + 2) b)
