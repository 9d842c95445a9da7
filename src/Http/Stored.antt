-- ===== src/Http/Stored.antt =====
-- What the header lines of a request and of a response leave in the context.
use small_rpc.Prelude.{
  ℕ, suc, ◌-◌, ◌≤◌, ◌<◌, ◌^◌, ◌≡◌, refl, ap, ◌∙◌, arith, false, [], ◌∷◌, Bytes, codes, length,
  Lacks, some, pos, returns,
}
use small_rpc.Buffer.{Buffer, readable, retrieve}
use small_rpc.Buffer.Contents.{Holds, readable-Holds}
use small_rpc.Http.Decimal.{
  decimal-StartsDigit, stoi-decimal, decimal-fits, decimal-Lacks, trim-Lacks,
}
use small_rpc.Http.Header.{
  headers_loop, store_header, apply_header, set_body_size, has_header, parse_headers,
}
use small_rpc.Http.State.{HttpContext, answer}
use small_rpc.Http.Text.{trim, trim_left, trim_right, decimal, stoi, is_empty, same_bytes}
use small_rpc.Http.Wire.{line, connection, headers}
use small_rpc.Protocol.{Context, ConnType, short, single, pool, part_success}
use small_rpc.Http.Lines.{header, headers_loop-line, headers_loop_end}
use small_rpc.Http.Found.{Moved}

-- What the connection line means to a parser.
abbrev pub kept_type : ConnType → ConnType → ConnType
kept_type short before = before
kept_type single before = single
kept_type pool before = single

abbrev pub connected : ConnType → HttpContext → HttpContext
connected t c = record c {
  base = record c.base { conn_type = kept_type t c.base.conn_type };
  headers = (codes "Connection", connection t) ∷ [];
}

abbrev pub typed : ConnType → HttpContext → HttpContext
typed t c = record c {
  base = record c.base { conn_type = kept_type t c.base.conn_type };
  headers =
      (codes "Content-Type", codes "application/data") ∷ (codes "Connection", connection t) ∷ [];
}

-- The context once the headers are read.
abbrev pub with_headers : Context → HttpContext → HttpContext
with_headers to c = record c {
  base = record c.base { conn_type = kept_type to.conn_type c.base.conn_type };
  body_size = pos (length to.payload);
  headers =
      (codes "Content-Length", decimal (length to.payload))
      ∷ (codes "Content-Type", codes "application/data")
      ∷ (codes "Connection", connection to.conn_type)
      ∷ [];
}

store_connection :
    (t : ConnType) (c : HttpContext)
    → store_header
        (record c { headers = [] })
        (trim (codes "Connection"))
        (trim (b' ' ∷ connection t))
      ≡ returns (connected t c)
unfolding store_header apply_header has_header is_empty same_bytes trim trim_left trim_right
store_connection short c = refl
store_connection single c = refl
store_connection pool c = refl

store_type :
    (t : ConnType) (c : HttpContext)
    → store_header
        (connected t c)
        (trim (codes "Content-Type"))
        (trim (b' ' ∷ codes "application/data"))
      ≡ returns (typed t c)
unfolding store_header apply_header has_header is_empty same_bytes trim trim_left trim_right
store_type t c = refl

size_set :
    (c : HttpContext) (v : Bytes) (n : ℕ)
    → stoi v ≡ some (pos n)
    → set_body_size c v ≡ returns (record c { body_size = pos n })
unfolding set_body_size
size_set c v n e = rw (e, set_body_size) refl

store_size :
    (t : ConnType) (c : HttpContext) (v : Bytes) (n : ℕ)
    → is_empty v ≡ false
    → stoi v ≡ some (pos n)
    → store_header (typed t c) (codes "Content-Length") v
      ≡ returns (record (typed t c) {
        body_size = pos n;
        headers = (codes "Content-Length", v) ∷ (typed t c).headers;
      })
unfolding store_header apply_header has_header same_bytes is_empty
store_size t c v n some_bytes e = rw some_bytes (rw (size_set (typed t c) v n e) refl)

-- The length of the payload is read as it was written.
store_length :
    (to : Context) (c : HttpContext)
    → length to.payload < 2 ^ 31
    → store_header
        (typed to.conn_type c)
        (trim (codes "Content-Length"))
        (trim (b' ' ∷ decimal (length to.payload)))
      ≡ returns (with_headers to c)
unfolding trim trim_left trim_right is_empty
store_length to c small =
    let n : ℕ = length to.payload in
    let digits : trim (b' ' ∷ decimal n) ≡ decimal n =
      trim-Lacks (decimal n) (decimal-Lacks b' ' n (omega arith)) in
    let (d, s, starts, low, high) = decimal-StartsDigit n in
    ap (store_header (typed to.conn_type c) (codes "Content-Length")) digits
    ∙ store_size to.conn_type c (decimal n) n (ap is_empty starts) (stoi-decimal n small)

pub connection_plain : (t : ConnType) → Lacks b'\r' (connection t) × (length (connection t) ≤ 10)
connection_plain short = omega arith
connection_plain single = omega arith
connection_plain pool = omega arith

-- What is left of the headers, and what follows them.
abbrev pub from_length : Context → Bytes → Bytes
from_length to rest =
    line (header (codes "Content-Length") (decimal (length to.payload))) (line [] rest)

abbrev pub from_type : Context → Bytes → Bytes
from_type to rest =
    line (header (codes "Content-Type") (codes "application/data")) (from_length to rest)

abbrev pub from_connection : Context → Bytes → Bytes
from_connection to rest =
    line (header (codes "Connection") (connection to.conn_type)) (from_type to rest)

-- The loop goes on behind the first line.
abbrev pub Passes : ℕ → HttpContext → Buffer → HttpContext → Bytes → Type 0
Passes fuel c b c' rest =
    (b' : Buffer) × (headers_loop (suc fuel) c b ≡ headers_loop fuel c' b')
    × Holds b' rest
    × Moved b b'

module _ (to : Context) (rest : Bytes) (c : HttpContext) (fuel : ℕ) {b : Buffer} where
  pub connection-Passes :
      Holds b (line (header (codes "Connection") (connection to.conn_type)) rest)
      → Passes fuel (record c { headers = [] }) b (connected to.conn_type c) rest
  connection-Passes h =
      let (plain, brief) = connection_plain to.conn_type in
      headers_loop-line (codes "Connection") (connection to.conn_type) rest fuel
        (record c { headers = [] }) h (omega arith) (omega arith) (omega arith) plain
        (omega (arith, brief)) (store_connection to.conn_type c)

  pub type-Passes :
      Holds b (line (header (codes "Content-Type") (codes "application/data")) rest)
      → Passes fuel (connected to.conn_type c) b (typed to.conn_type c) rest
  type-Passes h =
      headers_loop-line (codes "Content-Type") (codes "application/data") rest fuel
        (connected to.conn_type c) h (omega arith) (omega arith) (omega arith) (omega arith)
        (omega arith) (store_type to.conn_type c)

  pub length-Passes :
      length to.payload < 2 ^ 31
      → Holds b (line (header (codes "Content-Length") (decimal (length to.payload))) rest)
      → Passes fuel (typed to.conn_type c) b (with_headers to c) rest
  length-Passes small h =
      let digits = decimal-Lacks b'\r' (length to.payload) (omega arith) in
      let few = decimal-fits (length to.payload) in
      headers_loop-line (codes "Content-Length") (decimal (length to.payload)) rest fuel
        (typed to.conn_type c) h (omega arith) (omega arith) (omega arith) digits
        (omega (arith, few)) (store_length to c small)

-- The headers that a packer writes are read up to the body.
pub parse_headers_found :
    (to : Context) {b : Buffer} (rest : Bytes) (c : HttpContext)
    → length to.payload < 2 ^ 31
    → Holds b (headers to rest)
    → (b' : Buffer) × (parse_headers (record c { headers = [] }) b
        ≡ answer part_success (with_headers to c) b')
      × Holds b' rest
unfolding parse_headers headers
parse_headers_found to {b} rest c small h =
    let k : ℕ = readable b - 3 in
    let size : suc (readable b) ≡ suc (suc (suc (suc k))) = omega (arith, readable-Holds h) in
    let (b1, r1, h1, _) = connection-Passes to (from_type to rest) c (suc (suc (suc k))) h in
    let (b2, r2, h2, _) = type-Passes to (from_length to rest) c (suc (suc k)) h1 in
    let (b3, r3, h3, _) = length-Passes to (line [] rest) c (suc k) small h2 in
    let (r4, h4) = headers_loop_end rest k (with_headers to c) h3 in
    (
      retrieve 2 b3,
      ap (λ n. headers_loop n (record c { headers = [] }) b) size ∙ r1 ∙ r2 ∙ r3 ∙ r4,
      h4,
    )
