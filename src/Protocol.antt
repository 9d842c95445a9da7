-- ===== src/Protocol.antt =====
-- protocols/protocol.proto and protocols/protocol.h: the enumerations and the context of a call.
-- An enumeration travels as its declared number; `*_of` reads a number back, and `none` is what the
-- generated `*_IsValid` refuses.
use small_rpc.Prelude.{ℕ, [], Option, none, some, Bytes, ◌==◌, if◌then◌else◌}
use small_rpc.Buffer.{BufferView, null_view}

pub data ConnType : Type 0 where
  short single pool : ConnType

pub data RpcStatus : Type 0 where
  ok invalid_path : RpcStatus

pub data ParseProtocolStatus : Type 0 where
  success error no_enough_data try_another_protocol part_success : ParseProtocolStatus

unfoldable pub conn_type_number : ConnType → ℕ
conn_type_number short = 0
conn_type_number single = 1
conn_type_number pool = 2

unfoldable pub conn_type_of : ℕ → Option ConnType
conn_type_of n =
    if n == 0
    then some short
    else if n == 1
    then some single
    else if n == 2
    then some pool
    else none

unfoldable pub rpc_status_number : RpcStatus → ℕ
rpc_status_number ok = 0
rpc_status_number invalid_path = 1

unfoldable pub rpc_status_of : ℕ → Option RpcStatus
rpc_status_of n = if n == 0 then some ok else if n == 1 then some invalid_path else none

-- The fields of `Context`, which its setters assign and its getters return.
pub record Context : Type 0 where
  pub conn_type : ConnType
  pub rpc_status : RpcStatus
  pub service : Bytes
  pub method : Bytes
  pub payload_view : BufferView
  pub payload : Bytes

-- The constructor sets the connection type; the status keeps the value that its memory had.
unfoldable pub new_context : RpcStatus → Context
new_context left_over = record {
  conn_type = short;
  rpc_status = left_over;
  service = [];
  method = [];
  payload_view = null_view;
  payload = [];
}
