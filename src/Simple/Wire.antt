-- ===== src/Simple/Wire.antt =====
-- The bytes that the binary protocol means for a call, written down without a buffer.
use small_rpc.Prelude.{◌+◌, ◌^◌, ◌<◌, ◌∷◌, ◌++◌, Bytes, length, Lacks, be_bytes}
use small_rpc.Protocol.{Context, conn_type_number, rpc_status_number}
use small_rpc.Simple.{magic_num}

-- A request up to its payload, and a response up to its payload.
unfoldable pub request_head : Context → Bytes
request_head c =
    be_bytes magic_num
    ++ (be_bytes (conn_type_number c.conn_type)
        ++ (be_bytes (length c.service + 1 + length c.method)
            ++ (c.service ++ b'/' ∷ (c.method ++ be_bytes (length c.payload)))))

unfoldable pub response_head : Context → Bytes
response_head c =
    be_bytes magic_num
    ++ (be_bytes (conn_type_number c.conn_type)
        ++ (be_bytes (rpc_status_number c.rpc_status) ++ be_bytes (length c.payload)))

-- A call that the protocol can carry: no slash in the service's name, and lengths of 32 bits.
pub record IsSendable (c : Context) : Type 0 where
  pub no_slash : Lacks b'/' c.service
  pub path_fits : length c.service + 1 + length c.method < 2 ^ 31
  pub payload_fits : length c.payload < 2 ^ 32
