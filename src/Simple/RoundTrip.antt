-- ===== src/Simple/RoundTrip.antt =====
-- What one side packs, the other side parses.
use small_rpc.Prelude.{
  ◌*◌, ap, sym, subst, ℕ, suc, ◌+◌, ◌^◌, ◌≤◌, ◌<◌, ◌≡◌, ◌∙◌, refl, [], ◌∷◌, ◌++◌, append_assoc,
  arith, Bytes, length, be_bytes, Run, returns,
}
use small_rpc.Buffer.{Buffer, view_str}
use small_rpc.Buffer.Contents.{Holds, outgoing}
use small_rpc.Protocol.{Context, conn_type_number, rpc_status_number, success}
use small_rpc.Simple.{
  SimpleContext, Round, go_on, request_round, response_round, rounds, parse_request, parse_response,
  Parsed, pack_request, pack_response,
}
use small_rpc.Simple.Pack.{pack_request-outgoing, pack_response-outgoing}
use small_rpc.Simple.Parse.{
  parse_magic-Holds, parse_conn_type-Holds, parse_path-Holds, parse_payload-Holds,
  parse_type_and_status-Holds,
}
use small_rpc.Simple.Wire.{request_head, response_head, IsSendable}

module _ (round : SimpleContext → Buffer → Run Round) (fuel : ℕ) (c : SimpleContext)
    (b : Buffer) where
  pub rounds_on :
      {c' : SimpleContext} {b' : Buffer}
      → round c b ≡ returns (go_on c' b')
      → rounds round (suc fuel) c b ≡ rounds round fuel c' b'
  unfolding rounds
  rounds_on e = rw e

-- A parser's run succeeded, its context is that of the request `c`, and `rest` is still unread.
abbrev pub ReadsRequest : Context → Bytes → Run Parsed → Type 0
ReadsRequest c rest run =
    (p : Parsed) × (run ≡ returns p)
    × (p.status ≡ success)
    × (p.context.base.conn_type ≡ c.conn_type)
    × (p.context.base.service ≡ c.service)
    × (p.context.base.method ≡ c.method)
    × (view_str p.context.base.payload_view p.rest ≡ returns c.payload)
    × Holds p.rest rest

-- The same for a response.
abbrev pub ReadsResponse : Context → Bytes → Run Parsed → Type 0
ReadsResponse c rest run =
    (p : Parsed) × (run ≡ returns p)
    × (p.status ≡ success)
    × (p.context.base.conn_type ≡ c.conn_type)
    × (p.context.base.rpc_status ≡ c.rpc_status)
    × (view_str p.context.base.payload_view p.rest ≡ returns c.payload)
    × Holds p.rest rest

pub parse_request-ReadsRequest :
    (c base : Context) {b : Buffer} (rest : Bytes)
    → IsSendable c
    → Holds b (request_head c ++ (c.payload ++ rest))
    → ReadsRequest c rest (parse_request (record { base = base; stage = 0 }) b)
unfolding parse_request request_head request_round rounds
parse_request-ReadsRequest c base {b} rest s h =
    let start : SimpleContext = record { base = base; stage = 0 } in
    let body : Bytes = be_bytes (length c.payload) ++ (c.payload ++ rest) in
    let path : Bytes =
      be_bytes (length c.service + 1 + length c.method)
      ++ (c.service ++ b'/' ∷ (c.method ++ body)) in
    let kind : Bytes = be_bytes (conn_type_number c.conn_type) ++ path in
    let typed : SimpleContext = record {
      base = record base { conn_type = c.conn_type };
      stage = 2;
    } in
    let named : SimpleContext = record {
      base = record typed.base { service = c.service; method = c.method };
      stage = 3;
    } in
    let (b1, r1, h1) = parse_magic-Holds start kind (simp append_assoc at h) in
    let (b2, r2, h2) = parse_conn_type-Holds (record start { stage = 1 }) path c.conn_type h1 in
    let (b3, r3, h3) =
      parse_path-Holds typed body c.service c.method s.no_slash (omega (arith, s.path_fits)) h2 in
    let (b4, r4, v, h4) = parse_payload-Holds named rest 4 c.payload s.payload_fits h3 in
    rw (r1, r2, r3, r4) (_, refl, refl, refl, refl, refl, v, h4)

pub parse_response-ReadsResponse :
    (c base : Context) {b : Buffer} (rest : Bytes)
    → length c.payload < 2 ^ 32
    → Holds b (response_head c ++ (c.payload ++ rest))
    → ReadsResponse c rest (parse_response (record { base = base; stage = 0 }) b)
unfolding parse_response response_head response_round rounds
parse_response-ReadsResponse c base {b} rest fits h =
    let start : SimpleContext = record { base = base; stage = 0 } in
    let body : Bytes = be_bytes (length c.payload) ++ (c.payload ++ rest) in
    let kind : Bytes =
      be_bytes (conn_type_number c.conn_type)
      ++ (be_bytes (rpc_status_number c.rpc_status) ++ body) in
    let typed : SimpleContext = record {
      base = record base { conn_type = c.conn_type; rpc_status = c.rpc_status };
      stage = 2;
    } in
    let (b1, r1, h1) = parse_magic-Holds start kind (simp append_assoc at h) in
    let (b2, r2, h2) =
      parse_type_and_status-Holds (record start { stage = 1 }) body c.conn_type c.rpc_status h1 in
    let (b3, r3, v, h3) = parse_payload-Holds typed rest 3 c.payload fits h2 in
    rw (r1, r2, r3) (_, refl, refl, refl, refl, v, h3)

-- What the client packs for a sendable call, into a buffer that had nothing to send and twice whose
-- storage, of fewer than 2 ^ 30 bytes, the head fits, the server's parser reads once it has arrived in
-- full, from a fresh stage: it succeeds with the same connection type, service, method and payload,
-- and the bytes behind the request stay unread.
pub parse_request-pack_request :
    (c : SimpleContext) (base : Context) {b r w : Buffer} (rest : Bytes)
    → Holds b []
    → b.extra_index ≡ 0
    → length b.storage < 2 ^ 30
    → IsSendable c.base
    → b.windex + 17 + length c.base.service + length c.base.method ≤ 2 * length b.storage
    → pack_request c b ≡ returns w
    → Holds r (outgoing w ++ rest)
    → ReadsRequest c.base rest (parse_request (record { base = base; stage = 0 }) r)
parse_request-pack_request c base {b} {r} {w} rest h e small s room packed arrives =
    let (w', packed', sent) = pack_request-outgoing c h e small s room in
    let one : w' ≡ w = cc in
    let wire : outgoing w ++ rest ≡ request_head c.base ++ (c.base.payload ++ rest) =
      ap (λ x. x ++ rest) (ap outgoing (sym one) ∙ sent)
      ∙ append_assoc (request_head c.base) c.base.payload rest in
    parse_request-ReadsRequest c.base base rest s (subst (Holds r) wire arrives)

-- What the server packs for a response whose payload's length fits 32 bits, into a buffer that had
-- nothing to send and twice whose storage, of fewer than 2 ^ 30 bytes, the head fits, the client's
-- parser reads once it has arrived in full, from a fresh stage: it succeeds with the same connection
-- type, status and payload, and the bytes behind the response stay unread.
pub parse_response-pack_response :
    (c : SimpleContext) (base : Context) {b r w : Buffer} (rest : Bytes)
    → Holds b []
    → b.extra_index ≡ 0
    → length b.storage < 2 ^ 30
    → length c.base.payload < 2 ^ 32
    → b.windex + 16 ≤ 2 * length b.storage
    → pack_response c b ≡ returns w
    → Holds r (outgoing w ++ rest)
    → ReadsResponse c.base rest (parse_response (record { base = base; stage = 0 }) r)
parse_response-pack_response c base {b} {r} {w} rest h e small fits room packed arrives =
    let (w', packed', sent) = pack_response-outgoing c h e small fits room in
    let one : w' ≡ w = cc in
    let wire : outgoing w ++ rest ≡ response_head c.base ++ (c.base.payload ++ rest) =
      ap (λ x. x ++ rest) (ap outgoing (sym one) ∙ sent)
      ∙ append_assoc (response_head c.base) c.base.payload rest in
    parse_response-ReadsResponse c.base base rest fits (subst (Holds r) wire arrives)
