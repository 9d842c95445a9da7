-- ===== src/Http/Header.antt =====
-- `_parse_headers` of protocols/http.cpp.
use small_rpc.Prelude.{
  ℕ, zero, suc, ◌+◌, ◌-◌, [], ◌∷◌, List, Bytes, Bool, true, false, ◌||◌, ◌&&◌, ◌==◌, if◌then◌else◌,
  codes, none, some, Run, returns, fault, out_of_fuel, ◌>>=◌,
}
use small_rpc.Buffer.{Buffer, readable, retrieve, mem_chr, read_range}
use small_rpc.Protocol.{single, error, part_success}
use small_rpc.Http.Line.{with_line}
use small_rpc.Http.State.{HttpContext, HttpParsed, answer}
use small_rpc.Http.Text.{same_bytes, trim, is_empty, stoi}

abbrev pub max_header_size : ℕ
max_header_size = 65536

-- `_headers.find(key) != _headers.end()`
unfoldable pub has_header : Bytes → List (Bytes × Bytes) → Bool
has_header key [] = false
has_header key ((k, v) ∷ headers) = same_bytes k key || has_header key headers

-- `_body_size = std::stoi(value)`: nothing catches its exceptions, which end the program.
unfoldable pub set_body_size : HttpContext → Bytes → Run HttpContext
set_body_size c value = elim (stoi value) [
  | none ↦ fault
  | some n ↦ returns (record c { body_size = n })
]

-- What a new header does to the context.
unfoldable pub apply_header : HttpContext → Bytes → Bytes → Run HttpContext
apply_header c key value = do
  sized ← if same_bytes key (codes "Content-Length") then set_body_size c value else returns c
  let kept =
      if same_bytes key (codes "Connection") && same_bytes value (codes "Keep-Alive")
      then record sized { base = record sized.base { conn_type = single } }
      else sized
  returns (record kept { headers = (key, value) ∷ kept.headers })

-- A trimmed key and value: an empty one, or a key that is there already, is passed over.
unfoldable pub store_header : HttpContext → Bytes → Bytes → Run HttpContext
store_header c key value =
    if is_empty key || is_empty value || has_header key c.headers
    then returns c
    else apply_header c key value

-- The key and the value around the colon at `colon` of a line of `n` bytes.
unfoldable pub cut_header : HttpContext → Buffer → ℕ → ℕ → Run HttpContext
cut_header c b n colon = do
  key ← read_range b.storage b.rindex colon
  value ← read_range b.storage (b.rindex + colon + 1) (n - colon - 1)
  store_header c (trim key) (trim value)

-- The loop, on fuel, with its round on the line that ends at `n`.
unfoldable pub headers_loop : ℕ → HttpContext → Buffer → Run HttpParsed
headers_loop zero c b = out_of_fuel
headers_loop (suc fuel) c b = with_line max_header_size c b λ n. elim (n == 0) [
  | true ↦ answer part_success c (retrieve 2 b)
  | false ↦ mem_chr b.storage b.rindex b':' n >>= λ colon. elim colon [
    | none ↦ answer error c b
    | some at ↦ elim (at == 0) [
      | true ↦ answer error c b
      | false ↦ cut_header c b n at >>= λ c'. headers_loop fuel c' (retrieve (n + 2) b)
    ]
  ]
]

-- Every round but the last retrieves at least two bytes.
unfoldable pub parse_headers : HttpContext → Buffer → Run HttpParsed
parse_headers c b = headers_loop (suc (readable b)) c b
