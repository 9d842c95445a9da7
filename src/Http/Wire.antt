-- ===== src/Http/Wire.antt =====
-- The text that the HTTP protocol means for a call, written down without a buffer.
use small_rpc.Prelude.{◌+◌, ◌^◌, ◌<◌, ◌≤◌, [], ◌∷◌, ◌++◌, Bytes, length, Lacks, codes}
use small_rpc.Http.Text.{decimal}
use small_rpc.Protocol.{Context, ConnType, short, single, pool}

-- A line and what follows its end.
abbrev pub line : Bytes → Bytes → Bytes
line text rest = text ++ b'\r' ∷ b'\n' ∷ rest

abbrev pub request_line : Context → Bytes
request_line c = codes "POST /" ++ (c.service ++ b'/' ∷ (c.method ++ b' ' ∷ codes "HTTP/1.1"))

abbrev pub status_line : Bytes
status_line = codes "HTTP/1.1 200 OK"

-- The value of `Connection`.
abbrev pub connection : ConnType → Bytes
connection short = codes "Close"
connection single = codes "Keep-Alive"
connection pool = codes "Keep-Alive"

-- The header lines and the empty line, with what follows.
unfoldable pub headers : Context → Bytes → Bytes
headers c rest = line (codes "Connection: " ++ connection c.conn_type) (
    line (codes "Content-Type: application/data")
      (line (codes "Content-Length: " ++ decimal (length c.payload)) (line [] rest)))

-- A call that this protocol can carry: the names have no space and no line end, the service has no
-- slash, the line has room, and `int` can hold the length of the payload.
pub record IsSendable (c : Context) : Type 0 where
  pub no_slash : Lacks b'/' c.service
  pub service_no_space : Lacks b' ' c.service
  pub method_no_space : Lacks b' ' c.method
  pub service_no_return : Lacks b'\r' c.service
  pub method_no_return : Lacks b'\r' c.method
  pub line_fits : 18 + length c.service + length c.method ≤ 65536
  pub payload_fits : length c.payload < 2 ^ 31
