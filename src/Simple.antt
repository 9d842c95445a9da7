-- ===== src/Simple.antt =====
-- protocols/simple.h and protocols/simple.cpp: the binary protocol. A number is four bytes in
-- network order; a request is magic | conn_type | path_len | path | payload_len | payload, and a
-- response is magic | conn_type | status | payload_len | payload.
pub mod Wire
pub mod Pack
pub mod Parse
pub mod RoundTrip
pub mod Rounds
pub mod Loop
pub mod Overrun
use small_rpc.Prelude.{
  ℕ, zero, suc, ◌+◌, ◌-◌, ◌%◌, ◌^◌, [], ◌∷◌, Option, none, some, length, ltb, ◌==◌, if◌then◌else◌,
  Run, returns, out_of_fuel, ◌>>=◌,
}
use small_rpc.Buffer.{
  Buffer, readable, retrieve, read_range, peek_uint32, mem_chr, append_string, append_uint32,
  append_chars, append_extra, view_here,
}
use small_rpc.Protocol.{
  Context, RpcStatus, ParseProtocolStatus, success, error, no_enough_data, conn_type_number,
  conn_type_of, rpc_status_number, rpc_status_of, new_context,
}

abbrev pub magic_num : ℕ
magic_num = 0x19951028

pub record SimpleContext : Type 0 where
  pub base : Context
  pub stage : ℕ

-- `SimpleContext()`
unfoldable pub new_simple : RpcStatus → SimpleContext
new_simple left_over = record { base = new_context left_over; stage = 0 }

-- One round of the loop: it goes on, or returns with a status.
pub data Round : Type 0 where
  go_on : SimpleContext → Buffer → Round
  stop : ParseProtocolStatus → SimpleContext → Buffer → Round

-- `_stage == 0`, in both parsers.
unfoldable pub parse_magic : SimpleContext → Buffer → Run Round
parse_magic c b = if ltb (readable b) 4 then returns (stop no_enough_data c b) else do
  magic ← peek_uint32 b
  returns
      (if magic == magic_num then go_on (record c { stage = 1 }) (retrieve 4 b) else stop error c b)

-- The connection type in front of the queue, once it is known to be there.
unfoldable pub take_conn_type :
    SimpleContext → Buffer → ℕ → (SimpleContext → Buffer → Run Round) → Run Round
take_conn_type c b n next = elim (conn_type_of n) [
  | none ↦ returns (stop error c b)
  | some t ↦ next (record c { base = record c.base { conn_type = t } }) (retrieve 4 b)
]

-- `_stage == 1` of `parse_request`.
unfoldable pub parse_conn_type : SimpleContext → Buffer → Run Round
parse_conn_type c b = if ltb (readable b) 4 then returns (stop no_enough_data c b) else do
  n ← peek_uint32 b
  take_conn_type c b n (λ c' b'. returns (go_on (record c' { stage = 2 }) b'))

-- What stage 2 does with the path's bytes in front of the queue: the slash splits it.
unfoldable pub split_path : SimpleContext → Buffer → ℕ → Option ℕ → Run Round
split_path c b path_len none = returns (stop error c b)
split_path c b path_len (some slash) = do
  service ← read_range b.storage b.rindex slash
  method ← read_range b.storage (b.rindex + slash + 1) (path_len - 1 - slash)
  returns (
      go_on (record c { base = record c.base { service = service; method = method }; stage = 3 })
        (retrieve path_len b))

-- The path, once its length is read: the room for it is tested before the four bytes of the length
-- are retrieved.
unfoldable pub take_path : SimpleContext → Buffer → ℕ → Run Round
take_path c b path_len = if ltb (readable b) path_len then returns (stop no_enough_data c b) else do
  slash ← mem_chr (retrieve 4 b).storage (retrieve 4 b).rindex b'/' path_len
  split_path c (retrieve 4 b) path_len slash

-- `_stage == 2` of `parse_request`.
unfoldable pub parse_path : SimpleContext → Buffer → Run Round
parse_path c b =
    if ltb (readable b) 4
    then returns (stop no_enough_data c b)
    else do path_len ← peek_uint32 b; take_path c b path_len

-- The payload, once its length is read; `stage` is the stage behind it.
unfoldable pub take_payload : ℕ → SimpleContext → Buffer → ℕ → Round
take_payload stage c b payload_len =
    if ltb (readable b) payload_len
    then stop no_enough_data c b
    else go_on
        (record c {
          base = record c.base { payload_view = view_here (retrieve 4 b) payload_len };
          stage = stage;
        })
        (retrieve payload_len (retrieve 4 b))

-- The payload's stage of both parsers: 3 of `parse_request`, 2 of `parse_response`.
unfoldable pub parse_payload : ℕ → SimpleContext → Buffer → Run Round
parse_payload stage c b =
    if ltb (readable b) 4
    then returns (stop no_enough_data c b)
    else do payload_len ← peek_uint32 b; returns (take_payload stage c b payload_len)

-- `_stage == 1` of `parse_response`: the connection type and the status.
unfoldable pub take_status : SimpleContext → Buffer → ℕ → Round
take_status c b n = elim (rpc_status_of n) [
  | none ↦ stop error c b
  | some s ↦ go_on (record c { base = record c.base { rpc_status = s }; stage = 2 }) (retrieve 4 b)
]

unfoldable pub parse_status : SimpleContext → Buffer → Run Round
parse_status c b = do n ← peek_uint32 b; returns (take_status c b n)

unfoldable pub parse_type_and_status : SimpleContext → Buffer → Run Round
parse_type_and_status c b =
    if ltb (readable b) 8
    then returns (stop no_enough_data c b)
    else do n ← peek_uint32 b; take_conn_type c b n parse_status

unfoldable pub request_round : SimpleContext → Buffer → Run Round
request_round c b =
    if c.stage == 0
    then parse_magic c b
    else if c.stage == 1
    then parse_conn_type c b
    else if c.stage == 2
    then parse_path c b
    else if c.stage == 3
    then parse_payload 4 c b
    else returns (stop success c b)

unfoldable pub response_round : SimpleContext → Buffer → Run Round
response_round c b =
    if c.stage == 0
    then parse_magic c b
    else if c.stage == 1
    then parse_type_and_status c b
    else if c.stage == 2
    then parse_payload 3 c b
    else returns (stop success c b)

pub record Parsed : Type 0 where
  pub status : ParseProtocolStatus
  pub context : SimpleContext
  pub rest : Buffer

-- `while (true)` on fuel.
unfoldable pub rounds :
    (SimpleContext → Buffer → Run Round) → ℕ → SimpleContext → Buffer → Run Parsed
rounds round zero c b = out_of_fuel
rounds round (suc fuel) c b = round c b >>= elim [
  | go_on c' b' ↦ rounds round fuel c' b'
  | stop s c' b' ↦ returns (record { status = s; context = c'; rest = b' })
]

-- `SimpleContext::parse_request` and `parse_response`: each round but the last raises the stage.
unfoldable pub parse_request : SimpleContext → Buffer → Run Parsed
parse_request = rounds request_round 5

unfoldable pub parse_response : SimpleContext → Buffer → Run Parsed
parse_response = rounds response_round 4

-- `pack_response`; the result `true` is left out.
unfoldable pub pack_response : SimpleContext → Buffer → Run Buffer
pack_response c b = do
  b1 ← append_uint32 b magic_num
  b2 ← append_uint32 b1 (conn_type_number c.base.conn_type)
  b3 ← append_uint32 b2 (rpc_status_number c.base.rpc_status)
  b4 ← append_uint32 b3 (length c.base.payload % 2 ^ 32)
  returns (append_extra b4 c.base.payload)

-- `pack_request`; the result `true` is left out.
unfoldable pub pack_request : SimpleContext → Buffer → Run Buffer
pack_request c b = do
  b1 ← append_uint32 b magic_num
  b2 ← append_uint32 b1 (conn_type_number c.base.conn_type)
  b3 ← append_uint32 b2 ((length c.base.service + 1 + length c.base.method) % 2 ^ 32)
  b4 ← append_string b3 c.base.service
  b5 ← append_chars b4 (b'/' ∷ [])
  b6 ← append_string b5 c.base.method
  b7 ← append_uint32 b6 (length c.base.payload % 2 ^ 32)
  returns (append_extra b7 c.base.payload)
