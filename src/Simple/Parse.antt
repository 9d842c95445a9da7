-- ===== src/Simple/Parse.antt =====
-- `parse_request` and `parse_response`, a round at a time, on a buffer that holds the bytes of `Wire`.
use small_rpc.Prelude.{
  ℕ, ◌+◌, ◌-◌, ◌^◌, ◌≤◌, ◌<◌, ◌≡◌, ◌∙◌, refl, [], ◌∷◌, ◌++◌, append_assoc, arith, Bytes, length,
  length-append, some, length-be_bytes, be_bytes, returns, le→ltb, Lacks,
}
use small_rpc.Buffer.{Buffer, readable, retrieve, read_range, view_here, view_str}
use small_rpc.Buffer.Contents.{
  Holds, word-Holds, retrieve-Holds, read_range-Holds, read_range-append,
}
use small_rpc.Buffer.View.{view_str-Holds}
use small_rpc.Buffer.Search.{mem_chr-Holds}
use small_rpc.Protocol.{
  ConnType, RpcStatus, conn_type_number, conn_type_of, rpc_status_number, rpc_status_of, short,
  single, pool, ok, invalid_path,
}
use small_rpc.Simple.{
  SimpleContext, magic_num, go_on, parse_magic, take_conn_type, parse_conn_type, split_path,
  take_path, parse_path, take_payload, parse_payload, parse_status, take_status,
  parse_type_and_status,
}

conn_type_of_number :
    (t : ConnType) → (conn_type_of (conn_type_number t) ≡ some t) × (conn_type_number t < 2 ^ 32)
unfolding conn_type_of conn_type_number
conn_type_of_number short = (refl, omega arith)
conn_type_of_number single = (refl, omega arith)
conn_type_of_number pool = (refl, omega arith)

rpc_status_of_number :
    (s : RpcStatus)
    → (rpc_status_of (rpc_status_number s) ≡ some s) × (rpc_status_number s < 2 ^ 32)
unfolding rpc_status_of rpc_status_number
rpc_status_of_number ok = (refl, omega arith)
rpc_status_of_number invalid_path = (refl, omega arith)

-- The bytes behind the slash.
pub method_read :
    {b : Buffer} (service method rest : Bytes)
    → Holds b (service ++ b'/' ∷ (method ++ rest))
    → read_range b.storage (b.rindex + length service + 1) (length method) ≡ returns method
method_read {b} service method rest h =
    let before : Bytes = h.dead ++ (service ++ b'/' ∷ []) in
    let regroup : b.storage ≡ before ++ (method ++ (rest ++ h.room)) =
      h.splits ∙ simp append_assoc in
    rw regroup (
      read_range-append before method (rest ++ h.room)
        (omega (
          arith,
          h.starts,
          length-append h.dead (service ++ b'/' ∷ []),
          length-append service (b'/' ∷ []),
        ))
        refl)

module _ (c : SimpleContext) {b : Buffer} (rest : Bytes) where
  pub parse_magic-Holds :
      Holds b (be_bytes magic_num ++ rest)
      → (b' : Buffer) × (parse_magic c b ≡ returns (go_on (record c { stage = 1 }) b'))
        × Holds b' rest
  unfolding parse_magic
  parse_magic-Holds h =
      let (here, some_data, word, after) = word-Holds magic_num rest (omega arith) h in
      (retrieve 4 b, rw (some_data, word), after)

  pub parse_conn_type-Holds :
      (t : ConnType)
      → Holds b (be_bytes (conn_type_number t) ++ rest)
      → (b' : Buffer) × (parse_conn_type c b
          ≡ returns (go_on (record { base = record c.base { conn_type = t }; stage = 2 }) b'))
        × Holds b' rest
  unfolding parse_conn_type take_conn_type
  parse_conn_type-Holds t h =
      let (back, small) = conn_type_of_number t in
      let (here, some_data, word, after) = word-Holds (conn_type_number t) rest small h in
      (retrieve 4 b, rw (some_data, word, back, take_conn_type), after)

  pub parse_path-Holds :
      (service method : Bytes)
      → Lacks b'/' service
      → length service + 1 + length method < 2 ^ 32
      → Holds b
          (be_bytes (length service + 1 + length method) ++ (service ++ b'/' ∷ (method ++ rest)))
      → (b' : Buffer) × (parse_path c b
          ≡ returns (
              go_on
                (record { base = record c.base { service = service; method = method }; stage = 3 })
                b'))
        × Holds b' rest
  unfolding parse_path take_path split_path
  parse_path-Holds service method no_slash small h =
      let n : ℕ = length service + 1 + length method in
      let path : Bytes = service ++ b'/' ∷ (method ++ rest) in
      let (here, some_data, word, after) = word-Holds n path small h in
      let size : length path ≡ n + length rest =
        omega (arith, length-append service (b'/' ∷ (method ++ rest)), length-append method rest) in
      let left : n - 1 - length service ≡ length method = omega arith in
      let path_split : service ++ b'/' ∷ (method ++ rest) ≡ (service ++ b'/' ∷ method) ++ rest =
        simp append_assoc in
      (
        retrieve n (retrieve 4 b),
        rw (some_data, word)
            (rw
              (
                le→ltb (readable b) n (omega (arith, here, size)),
                mem_chr-Holds b'/' n service (method ++ rest) after no_slash (omega arith),
              )
              (rw (
                read_range-Holds service _ after refl,
                left,
                method_read service method rest after,
              ))),
        retrieve-Holds (service ++ b'/' ∷ method) rest (rw path_split at after)
            (omega (arith, length-append service (b'/' ∷ method))),
      )

  pub parse_payload-Holds :
      (stage : ℕ) (payload : Bytes)
      → length payload < 2 ^ 32
      → Holds b (be_bytes (length payload) ++ (payload ++ rest))
      → (b' : Buffer) × (parse_payload stage c b
          ≡ returns (
              go_on
                (record {
                  base = record c.base { payload_view = view_here (retrieve 4 b) (length payload) };
                  stage = stage;
                })
                b'))
        × (view_str (view_here (retrieve 4 b) (length payload)) b' ≡ returns payload)
        × Holds b' rest
  unfolding parse_payload take_payload
  parse_payload-Holds stage payload small h =
      let (here, some_data, word, after) = word-Holds (length payload) (payload ++ rest) small h in
      (
        retrieve (length payload) (retrieve 4 b),
        rw (some_data, word)
            (rw (
              le→ltb (readable b) (length payload)
                (omega (arith, here, length-append payload rest)))),
        view_str-Holds _ payload rest after refl (unfold retrieve in refl),
        retrieve-Holds payload rest after refl,
      )

  pub parse_type_and_status-Holds :
      (t : ConnType) (s : RpcStatus)
      → Holds b (be_bytes (conn_type_number t) ++ (be_bytes (rpc_status_number s) ++ rest))
      → (b' : Buffer) × (parse_type_and_status c b
          ≡ returns (
              go_on
                (record { base = record c.base { conn_type = t; rpc_status = s }; stage = 2 })
                b'))
        × Holds b' rest
  unfolding parse_type_and_status take_conn_type parse_status take_status
  parse_type_and_status-Holds t s h =
      let (back, small) = conn_type_of_number t in
      let (back', small') = rpc_status_of_number s in
      let state : Bytes = be_bytes (rpc_status_number s) in
      let (here, _, word, after) = word-Holds (conn_type_number t) (state ++ rest) small h in
      let (here', _, word', after') = word-Holds (rpc_status_number s) rest small' after in
      let size : 8 ≤ readable b =
        omega (arith, here, length-append state rest, length-be_bytes (rpc_status_number s)) in
      (
        retrieve 4 (retrieve 4 b),
        rw (le→ltb (readable b) 8 size, word, back, take_conn_type, word', back', take_status),
        after',
      )
