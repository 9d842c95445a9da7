-- ===== src/Simple/Pack.antt =====
-- `pack_request` and `pack_response` write the bytes of `Wire`.
use small_rpc.Prelude.{
  ◌+◌, ◌*◌, ◌%◌, ◌^◌, ◌≤◌, ◌<◌, ◌≡◌, ◌∙◌, refl, [], ◌∷◌, ◌++◌, append_assoc, append-nil, arith,
  subst, List, Bytes, length, length-append, be_bytes, returns, ap,
}
use small_rpc.Buffer.{Buffer, append_uint32, append_string, append_chars, c_string, append_extra}
use small_rpc.Buffer.Contents.{Holds, outgoing}
use small_rpc.Buffer.Socket.Stream.{Extra, Holds-same, outgoing-Extra}
use small_rpc.Buffer.Packed.{append_then, append_then-Packed, join, outgoing-append_extra}
use small_rpc.Protocol.{conn_type_number, rpc_status_number}
use small_rpc.Simple.{SimpleContext, magic_num, pack_request, pack_response}
use small_rpc.Simple.Wire.{request_head, response_head, IsSendable}

module _ (c : SimpleContext) where
  response_pieces : List Bytes
  response_pieces =
      be_bytes magic_num
      ∷ be_bytes (conn_type_number c.base.conn_type)
      ∷ be_bytes (rpc_status_number c.base.rpc_status)
      ∷ be_bytes (length c.base.payload % 2 ^ 32)
      ∷ []

  pack_response-append_then :
      (b : Buffer)
      → pack_response c b
        ≡ append_then response_pieces (λ w. returns (append_extra w c.base.payload)) b
  unfolding pack_response response_pieces append_uint32
  pack_response-append_then b = refl

  response_pieces-join :
      length c.base.payload < 2 ^ 32 → join response_pieces ≡ response_head c.base
  unfolding response_pieces response_head
  response_pieces-join fits =
      let exact : length c.base.payload % 2 ^ 32 ≡ length c.base.payload = omega arith in
      rw exact (simp append-nil)

  request_pieces : List Bytes
  request_pieces =
      be_bytes magic_num
      ∷ be_bytes (conn_type_number c.base.conn_type)
      ∷ be_bytes ((length c.base.service + 1 + length c.base.method) % 2 ^ 32)
      ∷ c.base.service
      ∷ (b'/' ∷ [])
      ∷ c.base.method
      ∷ be_bytes (length c.base.payload % 2 ^ 32)
      ∷ []

  pack_request-append_then :
      (b : Buffer)
      → pack_request c b
        ≡ append_then request_pieces (λ w. returns (append_extra w c.base.payload)) b
  unfolding pack_request request_pieces append_uint32 append_string append_chars c_string
  pack_request-append_then b = refl

  request_pieces-join : IsSendable c.base → join request_pieces ≡ request_head c.base
  unfolding request_pieces request_head
  request_pieces-join s =
      let size : length c.base.payload % 2 ^ 32 ≡ length c.base.payload =
        omega (arith, s.payload_fits) in
      let path : (length c.base.service + 1 + length c.base.method) % 2 ^ 32
          ≡ length c.base.service + 1 + length c.base.method =
        omega (arith, s.path_fits) in
      rw (size, path) (simp append-nil)

  length-request_head :
      length (request_head c.base) ≡ 17 + length c.base.service + length c.base.method
  unfolding request_head be_bytes
  length-request_head = omega (
    arith,
    length-append c.base.service (b'/' ∷ (c.base.method ++ be_bytes (length c.base.payload))),
    length-append c.base.method (be_bytes (length c.base.payload)),
  )

-- What `pack_request` puts in the queue and what it leaves beside it.
pub pack_request-queued :
    (c : SimpleContext) {b : Buffer} {live : Bytes}
    → Holds b live
    → b.extra_index ≡ 0
    → length b.storage < 2 ^ 30
    → IsSendable c.base
    → b.windex + 17 + length c.base.service + length c.base.method ≤ 2 * length b.storage
    → (w : Buffer) × (pack_request c b ≡ returns w)
      × Holds w (live ++ request_head c.base)
      × Extra w c.base.payload
unfolding append_extra
pack_request-queued c {b} {live} h e small sendable room =
    let head = request_pieces-join c sendable in
    let (w, done, p) =
      append_then-Packed (request_pieces c)
        (λ (w : Buffer). returns (append_extra w c.base.payload)) h small
        (omega (arith, ap length head, length-request_head c)) in
    (
      append_extra w c.base.payload,
      pack_request-append_then c b ∙ done,
      Holds-same (subst (λ out. Holds w (live ++ out)) head p.holds) refl refl refl,
      record {
        gone = [];
        splits = refl;
        starts = p.extra_index_kept ∙ e;
        fits = omega (arith, sendable.payload_fits);
      },
    )

-- `pack_request` does not fault, and the buffer then has to send what it held, the head of the
-- request and its payload, if the call is sendable, the head fits twice a storage of fewer than
-- 2 ^ 30 bytes behind the write index, and no extra data was sent before.
pub pack_request-outgoing :
    (c : SimpleContext) {b : Buffer} {live : Bytes}
    → Holds b live
    → b.extra_index ≡ 0
    → length b.storage < 2 ^ 30
    → IsSendable c.base
    → b.windex + 17 + length c.base.service + length c.base.method ≤ 2 * length b.storage
    → (w : Buffer) × (pack_request c b ≡ returns w)
      × (outgoing w ≡ live ++ (request_head c.base ++ c.base.payload))
pack_request-outgoing c {live = live} h e small sendable room =
    let (w, done, holds, extra) = pack_request-queued c h e small sendable room in
    (w, done, outgoing-Extra holds extra ∙ append_assoc live (request_head c.base) c.base.payload)

-- `pack_response` does not fault, and the buffer then has to send what it held, the head of the
-- response and its payload, if the payload's length fits 32 bits, the head fits twice a storage of
-- fewer than 2 ^ 30 bytes behind the write index, and no extra data was sent before.
pub pack_response-outgoing :
    (c : SimpleContext) {b : Buffer} {live : Bytes}
    → Holds b live
    → b.extra_index ≡ 0
    → length b.storage < 2 ^ 30
    → length c.base.payload < 2 ^ 32
    → b.windex + 16 ≤ 2 * length b.storage
    → (w : Buffer) × (pack_response c b ≡ returns w)
      × (outgoing w ≡ live ++ (response_head c.base ++ c.base.payload))
pack_response-outgoing c {b} {live} h e small fits room =
    let head = response_pieces-join c fits in
    let (w, done, p) =
      append_then-Packed (response_pieces c)
        (λ (w : Buffer). returns (append_extra w c.base.payload)) h small
        (unfold response_pieces be_bytes in omega arith) in
    (
      append_extra w c.base.payload,
      pack_response-append_then c b ∙ done,
      outgoing-append_extra c.base.payload p e ∙ rw (head, append_assoc),
    )
