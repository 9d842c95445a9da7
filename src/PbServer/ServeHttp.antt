-- ===== src/PbServer/ServeHttp.antt =====
-- A request of HTTP, from its text to the response in the write buffer.
use small_rpc.Prelude.{
  ℕ, List, ◌+◌, ◌*◌, ◌^◌, ◌≤◌, ◌<◌, ◌≡◌, ◌≢◌, refl, ap, ap₂, sym, subst, ◌∙◌, arith, false, le→ltb,
  [], ◌∷◌, ◌++◌, Bytes, codes, length, length-append, be_word, Option, none, some, Run, returns,
}
use small_rpc.Buffer.{Buffer, readable, peek_uint32}
use small_rpc.Buffer.Contents.{Holds, outgoing, readable-Holds, read_range-Holds}
use small_rpc.EventLoop.{Channel, Epoll, add_func, wakeup}
use small_rpc.Http.FirstLine.{match_method_post}
use small_rpc.Http.Stored.{kept_type}
use small_rpc.Http.Pack.{pack_response-sends}
use small_rpc.Http.RoundTrip.{ReadsPayload, parse_request_found}
use small_rpc.Http.State.{HttpContext, HttpParsed, new_http}
use small_rpc.Http.Wire.{line, request_line, status_line, headers, connection, IsSendable}
use small_rpc.PbServer.{PbServer, Method, find_service_method}
use small_rpc.PbServer.Choice.{Declines, simple_protocol-Declines}
use small_rpc.PbServer.Handlers.{
  World, Task, update_task, arm, answered, response_callback, data_read_callback,
}
use small_rpc.PbServer.Serve.{
  answer_of, arm-keeps, request_callback-answers, data_read_callback-success,
}
use small_rpc.Protocol.{Context, ConnType, short, single, pool, ok, success, new_context}
use small_rpc.Protocols.{
  http, Outcome, Protocol, simple_protocol, http_protocol, http_parse, http_start, run_http,
  pack_response, gives,
}
use small_rpc.Simple.{magic_num}
use small_rpc.TcpConnection.{TcpConnection, epollout, set_event}
use small_rpc.TimeStamp.{TimeStamp}

-- The bytes of a call.
abbrev pub request_text : Context → Bytes → Bytes
request_text call rest = line (request_line call) (headers call (call.payload ++ rest))

-- The simple protocol leaves a text that begins with POST to others.
post-Declines :
    {b : Buffer} (rest : Bytes) → Holds b (codes "POST" ++ rest) → Declines b none simple_protocol
post-Declines {b} rest h =
    let word : peek_uint32 b ≡ returns (be_word (codes "POST")) =
      unfold peek_uint32 in rw (read_range-Holds (codes "POST") rest h refl) refl in
    let other : be_word (codes "POST") ≢ magic_num = unfold be_word in omega arith in
    simple_protocol-Declines b _ (omega (arith, readable-Holds h)) word other

-- What HTTP makes of a request that has arrived in full.
http_protocol-Reads :
    (call : Context) {b : Buffer} (rest : Bytes)
    → IsSendable call
    → length (call.payload ++ rest) < 2 ^ 31
    → Holds b (request_text call rest)
    → (p : HttpParsed) × (http_protocol.parse b none
        ≡ returns (record { status = success; slot = some (http p.context); rest = p.rest }))
      × (p.context.base.service ≡ call.service)
      × (p.context.base.method ≡ call.method)
      × ReadsPayload call short rest p
unfolding http_protocol http_parse http_start run_http new_http new_context
http_protocol-Reads call {b} rest sendable few h =
    let (p, run, service, method, reads) =
      parse_request_found call (new_http ok) rest sendable few h in
    let hit = match_method_post _ h in
    let total =
      length-append (request_line call) (b'\r' ∷ b'\n' ∷ headers call (call.payload ++ rest)) in
    (
      p,
      rw (le→ltb (readable b) 7 (omega (arith, total, readable-Holds h)), hit, run)
          (ap (λ st. gives st (some (http p.context)) p.rest) reads.0),
      service,
      method,
      reads,
    )

connection-kept_type : (t : ConnType) → connection (kept_type t short) ≡ connection t
connection-kept_type short = refl
connection-kept_type single = refl
connection-kept_type pool = refl

module _ {K : Type 0} (E : Epoll K) where
  -- The connection at the address has the HTTP response of a call in its write buffer and wants to write, and
  -- the update that tells epoll so waits in its loop behind the functions that were there.
  abbrev pub AnsweredHttp :
      ℕ → List Task → Context → Bytes → Run (Option TcpConnection × World K) → Type 0
  AnsweredHttp address pending call response run =
      (c' : TcpConnection) × (w' : World K) × (run ≡ returns (some c', w'))
      × (outgoing c'.wbuf ≡ line status_line (headers (answer_of call response) response))
      × (c'.channel.event ≡ epollout)
      × (w'.el.funcs ≡ pending ++ update_task address ∷ [])

  response_callback-AnsweredHttp :
      (s : PbServer) (now : TimeStamp) (call : Context) (response : Bytes) (ctx : HttpContext)
      (c : TcpConnection) (w : World K)
      → ctx.base.conn_type ≡ kept_type call.conn_type short
      → Holds c.wbuf []
      → c.wbuf.extra_index ≡ 0
      → length c.wbuf.storage < 2 ^ 30
      → c.wbuf.windex + 113 ≤ 2 * length c.wbuf.storage
      → AnsweredHttp c.address w.el.funcs call response
          (response_callback E s now response (http ctx) c w)
  unfolding response_callback answered pack_response headers set_event add_func wakeup
  response_callback-AnsweredHttp s now call response ctx c w kind empty fresh small room =
      let full : HttpContext = record ctx {
        base = record ctx.base { rpc_status = ok; payload = response };
      } in
      let (wbuf, packed, sent) = pack_response-sends full empty fresh small room in
      let ready = set_event epollout (record c { context = some (http full); wbuf = wbuf }) in
      let w' = record w { el = add_func (update_task c.address) w.el } in
      let (kept, same_channel, _, queued) = arm-keeps E s.write_timeout_ms false now ready w' in
      let value : connection ctx.base.conn_type ≡ connection call.conn_type =
        ap connection kind ∙ connection-kept_type call.conn_type in
      (
        (arm E s.write_timeout_ms false now ready w').0,
        (arm E s.write_timeout_ms false now ready w').1,
        rw packed refl,
        ap outgoing kept ∙ sent ∙ rw value refl,
        ap (λ (ch : Channel). ch.event) same_channel,
        queued,
      )

  -- A server whose first two protocols are the simple one and HTTP gets a sendable call as HTTP, in full, on
  -- a connection that has not spoken yet and has nothing to send; its payload and what follows have fewer
  -- than 2 ^ 31 bytes. The storage of its write buffer has fewer than 2 ^ 30 bytes, and 113 more fit twice
  -- that storage. If the server knows the method and the method answers, the connection stays, its write
  -- buffer holds exactly the response, with the call's connection line, it wants to write, and the loop
  -- was given the function that updates its watch, behind those it had.
  pub data_read_callback-AnsweredHttp :
      (s : PbServer) (qs : List Protocol) (now : TimeStamp) (call : Context) (rest response : Bytes)
      (m : Method) (c : TcpConnection) (w : World K)
      → s.protocols ≡ simple_protocol ∷ http_protocol ∷ qs
      → c.proto_idx ≡ 0
      → c.context ≡ none
      → IsSendable call
      → length (call.payload ++ rest) < 2 ^ 31
      → Holds c.rbuf (request_text call rest)
      → find_service_method call.service call.method s ≡ some m
      → m call.payload ≡ some response
      → Holds c.wbuf []
      → c.wbuf.extra_index ≡ 0
      → length c.wbuf.storage < 2 ^ 30
      → c.wbuf.windex + 113 ≤ 2 * length c.wbuf.storage
      → AnsweredHttp c.address w.el.funcs call response (data_read_callback E s now c w)
  data_read_callback-AnsweredHttp s qs now call rest response m c w protocols start unused sendable
        few arrived known answers empty fresh small room =
      let (p, reads, service, method, (status, kind, payload, queue)) =
        http_protocol-Reads call rest sendable few arrived in
      let o : Outcome = record { status = success; slot = some (http p.context); rest = p.rest } in
      let c' = record c { proto_idx = 1; context = some (http p.context); rbuf = p.rest } in
      let method_known : find_service_method p.context.base.service p.context.base.method s
          ≡ some m =
        ap₂ (λ a b. find_service_method a b s) service method ∙ known in
      let answer : data_read_callback E s now c w
          ≡ response_callback E s now response (http p.context) c' w =
        data_read_callback-success E s now o http_protocol (simple_protocol ∷ []) qs c w protocols
          start unused (post-Declines _ arrived, tt) reads refl
        ∙ request_callback-answers E s now call.payload response m (http p.context) c' w payload
            method_known answers in
      subst (AnsweredHttp c.address w.el.funcs call response) (sym answer) (
        response_callback-AnsweredHttp s now call response p.context c' w kind empty fresh small
          room)
