-- ===== src/Http/Pack.antt =====
-- `pack_request` and `pack_response` of HTTP write the text of `Wire`.
use small_rpc.Prelude.{
  ◌+◌, ◌*◌, ◌^◌, ◌≤◌, ◌<◌, ◌≡◌, ◌∙◌, refl, [], ◌∷◌, ◌++◌, append_assoc, arith, codes, List, Bytes,
  length, length-append, returns, ap, sym, subst, append-nil,
}
use small_rpc.Buffer.{Buffer, append_string, append_chars, c_string, append_extra}
use small_rpc.Buffer.Contents.{Holds, outgoing}
use small_rpc.Buffer.Socket.Stream.{Extra, Holds-same, outgoing-Extra}
use small_rpc.Buffer.Packed.{append_then, append_then-Packed, join, outgoing-append_extra}
use small_rpc.Http.{connection_line, pack_request, pack_response}
use small_rpc.Http.Decimal.{decimal-fits}
use small_rpc.Http.State.{HttpContext}
use small_rpc.Http.Text.{decimal}
use small_rpc.Http.Wire.{line, request_line, status_line, connection, headers}
use small_rpc.Protocol.{Context, ConnType, short, single, pool}

-- No byte of these lines is 0.
connection_line_whole : (t : ConnType) → c_string (connection_line t) ≡ connection_line t
unfolding c_string
connection_line_whole short = refl
connection_line_whole single = refl
connection_line_whole pool = refl

-- The pieces that both packers end with.
abbrev header_pieces : Context → List Bytes
header_pieces c =
    connection_line c.conn_type
    ∷ codes "Content-Type: application/data\r\n"
    ∷ codes "Content-Length: "
    ∷ decimal (length c.payload)
    ∷ codes "\r\n\r\n"
    ∷ []

connection_line-join :
    (t : ConnType) (rest : Bytes)
    → connection_line t ++ rest ≡ line (codes "Connection: " ++ connection t) rest
connection_line-join short rest = refl
connection_line-join single rest = refl
connection_line-join pool rest = refl

header_pieces-join : (c : Context) (rest : Bytes) → join (header_pieces c) ++ rest ≡ headers c rest
unfolding headers
header_pieces-join c rest =
    append_assoc (connection_line c.conn_type) _ rest
    ∙ connection_line-join c.conn_type _
    ∙ rw (append_assoc (decimal (length c.payload)) (codes "\r\n\r\n") rest) refl

length-connection_line : (t : ConnType) → length (connection_line t) ≤ 24
length-connection_line short = omega arith
length-connection_line single = omega arith
length-connection_line pool = omega arith

length-header_pieces : (c : Context) → length (join (header_pieces c)) ≤ 96
length-header_pieces c =
    let n : Bytes = decimal (length c.payload) in
    let tail : Bytes = codes "Content-Length: " ++ (n ++ codes "\r\n\r\n") in
    omega (
      arith,
      length-connection_line c.conn_type,
      decimal-fits (length c.payload),
      length-append n (codes "\r\n\r\n"),
      length-append (connection_line c.conn_type)
          (codes "Content-Type: application/data\r\n" ++ tail),
    )

module _ (c : HttpContext) where
  response_pieces : List Bytes
  response_pieces = codes "HTTP/1.1 200 OK\r\n" ∷ header_pieces c.base

  pack_response-append_then :
      (b : Buffer)
      → pack_response c b
        ≡ append_then response_pieces (λ w. returns (append_extra w c.base.payload)) b
  unfolding pack_response response_pieces append_string append_chars
  pack_response-append_then b =
      rw (connection_line_whole c.base.conn_type) (unfold c_string in refl)

  request_pieces : List Bytes
  request_pieces =
      codes "POST /"
      ∷ c.base.service
      ∷ codes "/"
      ∷ c.base.method
      ∷ codes " HTTP/1.1\r\n"
      ∷ header_pieces c.base

  pack_request-append_then :
      (b : Buffer)
      → pack_request c b
        ≡ append_then request_pieces (λ w. returns (append_extra w c.base.payload)) b
  unfolding pack_request request_pieces append_string append_chars
  pack_request-append_then b = rw (connection_line_whole c.base.conn_type) (unfold c_string in refl)

-- A request up to its payload.
abbrev pub request_head : Context → Bytes
request_head c = line (request_line c) (headers c [])

request_pieces-join : (c : HttpContext) → join (request_pieces c) ≡ request_head c.base
unfolding request_pieces
request_pieces-join c =
    let start : Bytes =
      codes "POST /" ++ (c.base.service ++ b'/' ∷ (c.base.method ++ codes " HTTP/1.1\r\n")) in
    let split : join (request_pieces c) ≡ start ++ join (header_pieces c.base) =
      simp append_assoc in
    let no_more : join (header_pieces c.base) ≡ headers c.base [] =
      sym (append-nil (join (header_pieces c.base))) ∙ header_pieces-join c.base [] in
    split ∙ ap (λ x. start ++ x) no_more ∙ simp append_assoc

pub length-headers : (c : Context) (rest : Bytes) → length (headers c rest) ≤ 96 + length rest
length-headers c rest = omega (
  arith,
  ap length (header_pieces-join c rest),
  length-append (join (header_pieces c)) rest,
  length-header_pieces c,
)

-- What `pack_request` puts in the queue and what it leaves beside it.
pub pack_request-queued :
    (c : HttpContext) {b : Buffer}
    → Holds b []
    → b.extra_index ≡ 0
    → length b.storage < 2 ^ 30
    → length c.base.payload < 2 ^ 31
    → b.windex + 114 + length c.base.service + length c.base.method ≤ 2 * length b.storage
    → (w : Buffer) × (pack_request c b ≡ returns w)
      × Holds w (request_head c.base)
      × Extra w c.base.payload
unfolding request_pieces append_extra
pack_request-queued c {b} h e small fits room =
    let last : Bytes = codes " HTTP/1.1\r\n" ++ join (header_pieces c.base) in
    let (w, packed, p) =
      append_then-Packed (request_pieces c)
        (λ (w : Buffer). returns (append_extra w c.base.payload)) h small
        (omega (
          arith,
          length-header_pieces c.base,
          length-append c.base.service (b'/' ∷ (c.base.method ++ last)),
          length-append c.base.method last,
        )) in
    (
      append_extra w c.base.payload,
      pack_request-append_then c b ∙ packed,
      Holds-same (subst (Holds w) (request_pieces-join c) p.holds) refl refl refl,
      record {
        gone = [];
        splits = refl;
        starts = p.extra_index_kept ∙ e;
        fits = omega (arith, fits);
      },
    )

-- The payload behind the headers.
pub headers-append : (c : Context) (xs rest : Bytes) → headers c xs ++ rest ≡ headers c (xs ++ rest)
unfolding headers
headers-append c xs rest = simp append_assoc

-- What `pack_request` has to send, if its text fits twice the storage behind the write index.
pub pack_request-sends :
    (c : HttpContext) {b : Buffer}
    → Holds b []
    → b.extra_index ≡ 0
    → length b.storage < 2 ^ 30
    → length c.base.payload < 2 ^ 31
    → b.windex + 114 + length c.base.service + length c.base.method ≤ 2 * length b.storage
    → (w : Buffer) × (pack_request c b ≡ returns w)
      × (outgoing w ≡ line (request_line c.base) (headers c.base c.base.payload))
pack_request-sends c {b} h e small fits room =
    let (w, packed, holds, extra) = pack_request-queued c h e small fits room in
    (
      w,
      packed,
      outgoing-Extra holds extra
          ∙ append_assoc (request_line c.base) (b'\r' ∷ b'\n' ∷ headers c.base []) c.base.payload
          ∙ ap (λ x. request_line c.base ++ b'\r' ∷ b'\n' ∷ x)
              (headers-append c.base [] c.base.payload),
    )

-- What `pack_response` has to send, under the same condition.
pub pack_response-sends :
    (c : HttpContext) {b : Buffer}
    → Holds b []
    → b.extra_index ≡ 0
    → length b.storage < 2 ^ 30
    → b.windex + 113 ≤ 2 * length b.storage
    → (w : Buffer) × (pack_response c b ≡ returns w)
      × (outgoing w ≡ line status_line (headers c.base c.base.payload))
unfolding response_pieces
pack_response-sends c {b} h e small room =
    let start : Bytes = codes "HTTP/1.1 200 OK\r\n" in
    let (w, packed, p) =
      append_then-Packed (response_pieces c)
        (λ (w : Buffer). returns (append_extra w c.base.payload)) h small
        (omega (arith, length-header_pieces c.base)) in
    (
      append_extra w c.base.payload,
      pack_response-append_then c b ∙ packed,
      outgoing-append_extra c.base.payload p e
          ∙ ap (λ x. start ++ x) (header_pieces-join c.base c.base.payload),
    )
