-- ===== src/Http/State.antt =====
-- `HTTPContext`, the result of a stage of its parsers, and the methods of protocols/protocol.proto.
use small_rpc.Prelude.{
  ℕ, suc, List, [], ◌∷◌, Bytes, Option, none, some, ℤ, pos, codes, take, Run, returns, ◌>>=◌, true,
  false,
}
use small_rpc.Buffer.{Buffer, BufferView, null_view}
use small_rpc.Protocol.{Context, RpcStatus, ParseProtocolStatus, new_context}
use small_rpc.Http.Text.{starts_with}

pub record HttpContext : Type 0 where
  pub base : Context
  pub stage : ℕ
  pub body_size : ℤ
  -- `none` is -1.
  pub http_method : Option ℕ
  pub http_url : BufferView
  pub http_version : BufferView
  pub request_line : BufferView
  pub headers : List (Bytes × Bytes)

-- `HTTPContext()`
unfoldable pub new_http : RpcStatus → HttpContext
new_http left_over = record {
  base = new_context left_over;
  stage = 0;
  body_size = pos 0;
  http_method = none;
  http_url = null_view;
  http_version = null_view;
  request_line = null_view;
  headers = [];
}

-- A status, with the context and the buffer as they are then.
pub record HttpParsed : Type 0 where
  pub status : ParseProtocolStatus
  pub context : HttpContext
  pub rest : Buffer

abbrev pub answer : ParseProtocolStatus → HttpContext → Buffer → Run HttpParsed
answer s c b = returns (record { status = s; context = c; rest = b })

-- The names of `_HTTPMethod`, by their numbers from `_HTTPMethod_MIN`, and `_HTTPMethod_MAX`, the
-- greatest number.
unfoldable pub http_methods : List Bytes
http_methods =
    codes "GET"
    ∷ codes "POST"
    ∷ codes "HEAD"
    ∷ codes "OPTIONS"
    ∷ codes "PUT"
    ∷ codes "PATCH"
    ∷ codes "DELETE"
    ∷ codes "TRACE"
    ∷ codes "CONNECT"
    ∷ []

abbrev pub max_method : ℕ
max_method = 8

-- The loop over the methods from number `i` on: the number and the name of the first one that the
-- memory begins with.
unfoldable pub find_method : ℕ → List Bytes → Bytes → Run (Option (ℕ × Bytes))
find_method i [] mem = returns none
find_method i (name ∷ names) mem =
    starts_with mem name
    >>= elim [ true ↦ returns (some (i, name)) | false ↦ find_method (suc i) names mem ]

-- The loop's test is `i < _HTTPMethod_MAX`.
unfoldable pub match_method : Bytes → Run (Option (ℕ × Bytes))
match_method = find_method 0 (take max_method http_methods)
