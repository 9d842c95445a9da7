-- ===== src/Http/RoundTrip.antt =====
-- What one side packs with HTTP, the other side parses.
use small_rpc.Prelude.{
  ◌-◌, ◌*◌, ap, sym, subst, ℕ, ◌+◌, ◌^◌, ◌≤◌, ◌<◌, ◌≡◌, ◌∙◌, refl, [], ◌∷◌, ◌++◌, append_assoc,
  arith, Bytes, length, length-append, Run, returns, pos, ltb_ℤ, int_of_small, le→ltb, false, add64,
  le→leb,
}
use small_rpc.Buffer.{Buffer, view_at, view_str}
use small_rpc.Buffer.Contents.{Holds, Holds-bounds, readable-Holds, read_range-Holds, outgoing}
use small_rpc.Http.{
  pack_request, pack_response, size_of_int, parse_body, run_stage, stages, parse_request,
  parse_response,
}
use small_rpc.Http.FirstLine.{with_request, parse_request_line_found, parse_response_line_found}
use small_rpc.Http.Stored.{kept_type, with_headers, parse_headers_found}
use small_rpc.Http.Line.{parse_request_line, parse_response_line}
use small_rpc.Http.Stages.{stages_part}
use small_rpc.Http.State.{HttpContext, HttpParsed, answer}
use small_rpc.Http.Pack.{headers-append, pack_request-sends, pack_response-sends}
use small_rpc.Http.Wire.{line, request_line, status_line, headers, IsSendable}
use small_rpc.Protocol.{Context, ConnType, success, part_success}

-- A view of the bytes at the head of the queue.
pub view_at-Holds :
    {b : Buffer} (xs rest : Bytes) {n : ℕ}
    → Holds b (xs ++ rest)
    → n ≡ length xs
    → view_str (view_at b.rindex n) b ≡ returns xs
unfolding view_at view_str
view_at-Holds {b} xs rest {n} h k =
    let exact : add64 b.rindex n ≡ b.rindex + n =
      omega (arith, Holds-bounds h, length-append xs rest) in
    let size : (b.rindex + n) - b.rindex ≡ n = omega arith in
    rw (exact, le→leb b.rindex (b.rindex + n) (omega arith), size) (read_range-Holds xs rest h k)

-- The body is there, so the view of it is made.
pub parse_body_found :
    (c : HttpContext) {b : Buffer} (payload rest : Bytes)
    → c.body_size ≡ pos (length payload)
    → length (payload ++ rest) < 2 ^ 31
    → Holds b (payload ++ rest)
    → parse_body c b
      ≡ answer part_success
          (record c { base = record c.base { payload_view = view_at b.rindex (length payload) } })
          b
unfolding parse_body size_of_int
parse_body_found c {b} payload rest size few h =
    let there : ltb_ℤ (pos (length (payload ++ rest))) (pos (length payload)) ≡ false =
      le→ltb _ _ (omega (arith, length-append payload rest)) in
    rw (size, readable-Holds h, int_of_small (length (payload ++ rest)) few, there) refl

-- From the headers on, the stages end in success with the payload in view.
stages_headers :
    (first_line : HttpContext → Buffer → Run HttpParsed) (to : Context) (c : HttpContext)
    {b : Buffer} (rest : Bytes)
    → length (to.payload ++ rest) < 2 ^ 31
    → Holds b (headers to (to.payload ++ rest))
    → (b' : Buffer) × (stages first_line 3 (record c { stage = 1; headers = [] }) b
        ≡ answer success
            (record (with_headers to c) {
              stage = 3;
              base = record c.base {
                conn_type = kept_type to.conn_type c.base.conn_type;
                payload_view = view_at b'.rindex (length to.payload);
              };
            })
            b')
      × Holds b' (to.payload ++ rest)
unfolding run_stage stages
stages_headers first_line to c {b} rest few h =
    let small : length to.payload < 2 ^ 31 = omega (arith, length-append to.payload rest) in
    let (b', r1, h1) =
      parse_headers_found to (to.payload ++ rest) (record c { stage = 1 }) small h in
    let sized : HttpContext = record (with_headers to c) { stage = 2 } in
    let r2 = parse_body_found sized to.payload rest refl few h1 in (b', rw (r1, r2) refl, h1)

-- A parser's run succeeded with the connection type and the payload of `to`, which is in view and is
-- still in the queue, in front of `rest`.
abbrev pub ReadsPayload : Context → ConnType → Bytes → HttpParsed → Type 0
ReadsPayload to before rest p =
    (p.status ≡ success)
    × (p.context.base.conn_type ≡ kept_type to.conn_type before)
    × (view_str p.context.base.payload_view p.rest ≡ returns to.payload)
    × Holds p.rest (to.payload ++ rest)

-- A parser's context before its first line, with whatever the other fields have.
abbrev pub before_line : HttpContext → HttpContext
before_line c = record c { stage = 0; headers = [] }

pub parse_request_found :
    (to : Context) (c : HttpContext) {b : Buffer} (rest : Bytes)
    → IsSendable to
    → length (to.payload ++ rest) < 2 ^ 31
    → Holds b (line (request_line to) (headers to (to.payload ++ rest)))
    → (p : HttpParsed) × (parse_request (before_line c) b ≡ returns p)
      × (p.context.base.service ≡ to.service)
      × (p.context.base.method ≡ to.method)
      × ReadsPayload to c.base.conn_type rest p
unfolding parse_request run_stage
parse_request_found to c {b} rest s few h =
    let (b1, r1, h1, _) =
      parse_request_line_found to (headers to (to.payload ++ rest)) (before_line c) s h in
    let named : HttpContext = with_request to.service to.method b.rindex (before_line c) in
    let (b2, r2, h2) = stages_headers parse_request_line to named rest few h1 in
    (
      _,
      stages_part parse_request_line (before_line c) b 3 r1 ∙ r2,
      refl,
      refl,
      (refl, refl, view_at-Holds to.payload rest h2 refl, h2),
    )

pub parse_response_found :
    (to : Context) (c : HttpContext) {b : Buffer} (rest : Bytes)
    → length (to.payload ++ rest) < 2 ^ 31
    → Holds b (line status_line (headers to (to.payload ++ rest)))
    → (p : HttpParsed) × (parse_response (before_line c) b ≡ returns p)
      × ReadsPayload to c.base.conn_type rest p
unfolding parse_response run_stage
parse_response_found to c {b} rest few h =
    let (b1, r1, h1) =
      parse_response_line_found (headers to (to.payload ++ rest)) (before_line c) h in
    let skipped : HttpContext = record (before_line c) { request_line = view_at b.rindex 15 } in
    let (b2, r2, h2) = stages_headers parse_response_line to skipped rest few h1 in
    (
      _,
      stages_part parse_response_line (before_line c) b 3 r1 ∙ r2,
      (refl, refl, view_at-Holds to.payload rest h2 refl, h2),
    )

-- What the client packs with HTTP for a sendable call, into a buffer that had nothing to send and twice
-- whose storage, of fewer than 2 ^ 30 bytes, the text fits, the server's parser reads once it has
-- arrived in full and with fewer than 2 ^ 31 bytes of payload and more, in a context before its first
-- line that has no headers: it succeeds with the same service, method and payload, and with the single
-- connection type for every type but short, which leaves the type as it was. The payload is not
-- retrieved, so that it still stands in front of the next bytes.
pub request_round_trip :
    (c : HttpContext) (other : HttpContext) {b r w : Buffer} (rest : Bytes)
    → Holds b []
    → b.extra_index ≡ 0
    → length b.storage < 2 ^ 30
    → IsSendable c.base
    → b.windex + 114 + length c.base.service + length c.base.method ≤ 2 * length b.storage
    → length (c.base.payload ++ rest) < 2 ^ 31
    → pack_request c b ≡ returns w
    → Holds r (outgoing w ++ rest)
    → (p : HttpParsed) × (parse_request (before_line other) r ≡ returns p)
      × (p.context.base.service ≡ c.base.service)
      × (p.context.base.method ≡ c.base.method)
      × ReadsPayload c.base other.base.conn_type rest p
request_round_trip c other {b} {r} {w} rest h e small s room few packed arrives =
    let (w', packed', sent) = pack_request-sends c h e small s.payload_fits room in
    let one : w' ≡ w = cc in
    let wire : outgoing w ++ rest
        ≡ line (request_line c.base) (headers c.base (c.base.payload ++ rest)) =
      ap (λ x. x ++ rest) (ap outgoing (sym one) ∙ sent)
      ∙ append_assoc (request_line c.base) _ rest
      ∙ ap (λ x. request_line c.base ++ b'\r' ∷ b'\n' ∷ x)
          (headers-append c.base c.base.payload rest) in
    parse_request_found c.base other rest s few (subst (Holds r) wire arrives)

-- What the server packs with HTTP for a response, into a buffer that had nothing to send and twice whose
-- storage, of fewer than 2 ^ 30 bytes, the text fits, the client's parser reads once it has arrived in
-- full and with fewer than 2 ^ 31 bytes of payload and more, in a context before its first line that has
-- no headers: it succeeds with the same payload, and with the single connection type for every type but
-- short, which leaves the type as it was. The payload is not retrieved.
pub response_round_trip :
    (c : HttpContext) (other : HttpContext) {b r w : Buffer} (rest : Bytes)
    → Holds b []
    → b.extra_index ≡ 0
    → length b.storage < 2 ^ 30
    → b.windex + 113 ≤ 2 * length b.storage
    → length (c.base.payload ++ rest) < 2 ^ 31
    → pack_response c b ≡ returns w
    → Holds r (outgoing w ++ rest)
    → (p : HttpParsed) × (parse_response (before_line other) r ≡ returns p)
      × ReadsPayload c.base other.base.conn_type rest p
response_round_trip c other {b} {r} {w} rest h e small room few packed arrives =
    let (w', packed', sent) = pack_response-sends c h e small room in
    let one : w' ≡ w = cc in
    let wire : outgoing w ++ rest ≡ line status_line (headers c.base (c.base.payload ++ rest)) =
      ap (λ x. x ++ rest) (ap outgoing (sym one) ∙ sent)
      ∙ ap (λ x. status_line ++ b'\r' ∷ b'\n' ∷ x) (headers-append c.base c.base.payload rest) in
    parse_response_found c.base other rest few (subst (Holds r) wire arrives)
