-- ===== src/PbClient/CallHttp.antt =====
-- A synchronous call over HTTP.
use small_rpc.Prelude.{
  ◌+◌, ◌*◌, ◌^◌, ◌<◌, ◌≤◌, ◌≡◌, ◌≢◌, refl, ap, sym, subst, ◌∙◌, arith, true, false, [], ◌∷◌, ◌++◌,
  append-nil, length, Bytes, Option, none, some, returns, le→ltb,
}
use small_rpc.Buffer.{Buffer, clear}
use small_rpc.Buffer.Contents.{Holds, clear-Holds}
use small_rpc.Buffer.Socket.{took, came}
use small_rpc.Buffer.Socket.Stream.{Extra}
use small_rpc.EventLoop.{Epoll}
use small_rpc.Http.Pack.{request_head, length-headers, pack_request-queued}
use small_rpc.Http.RoundTrip.{parse_response_found}
use small_rpc.Http.State.{HttpContext, new_http}
use small_rpc.Http.Wire.{line, status_line, headers}
use small_rpc.PbClient.{
  PbClient, PbController, start_call, start_with, send_call, is_async, call_method, uint32_max,
}
use small_rpc.PbClient.Call.{call_of, Receives, sync_call-Receives}
use small_rpc.PbClient.Session.{Answers}
use small_rpc.PbClient.Waiting.{in_call, waiting}
use small_rpc.Protocol.{Context, ok}
use small_rpc.Protocols
use small_rpc.Protocols.{AnyContext, http, http_protocol, gives, parse_response}
use small_rpc.TcpConnection.{TcpConnection}

-- The context of a new call, and the bytes of a response.
abbrev pub http_context : Context → AnyContext
http_context base = http (record (new_http ok) { base = base })

abbrev pub http_response : Context → Bytes
http_response answer = line status_line (headers answer answer.payload)

pub parse_response_then :
    (answer base : Context) {b : Buffer} (rest : Bytes)
    → length (answer.payload ++ rest) < 2 ^ 31
    → Holds b (line status_line (headers answer (answer.payload ++ rest)))
    → Answers (http_context base) answer.payload b
unfolding parse_response new_http
parse_response_then answer base {b} rest fits h =
    let (p, run, (status, kind, payload, _)) =
      parse_response_found answer (record (new_http ok) { base = base }) rest fits h in
    (
      http p.context,
      p.rest,
      rw run (ap (λ st. gives st (some (http p.context)) p.rest) status),
      payload,
    )

http_response-Answers :
    (answer base : Context) {b : Buffer}
    → length answer.payload < 2 ^ 31
    → Holds b (http_response answer)
    → Answers (http_context base) answer.payload b
http_response-Answers answer base {b} fits h =
    let whole : Holds b (line status_line (headers answer (answer.payload ++ []))) =
      subst (λ p. Holds b (line status_line (headers answer p))) (sym (append-nil answer.payload))
        h in
    let few : length (answer.payload ++ []) < 2 ^ 31 =
      omega (arith, fits, ap length (append-nil answer.payload)) in
    parse_response_then answer base [] few whole

module _ {K D : Type 0} (E : Epoll K) where
  pub start_call-PacksHttp :
      (cntl : PbController) (service method payload : Bytes) (closure : Option D)
      (c : TcpConnection) (w : PbClient K D) {live : Bytes}
      → w.protocol ≡ some http_protocol
      → length payload < 2 ^ 31
      → Holds c.wbuf live
      → length c.wbuf.storage < 2 ^ 30
      → 114 + length service + length method ≤ 2 * length c.wbuf.storage
      → (wbuf : Buffer) × (start_call E cntl service method payload closure c w
          ≡ returns (
            true,
            in_call
                (http_context (call_of cntl service method payload))
                (record c { rbuf = clear c.rbuf; wbuf = wbuf }),
            waiting closure w,
          ))
        × Holds wbuf (request_head (call_of cntl service method payload))
        × Extra wbuf payload
  unfolding start_call start_with clear http_protocol Protocols.pack_request new_http
  start_call-PacksHttp cntl service method payload closure c w speaks fits h small room =
      let ctx : HttpContext = record (new_http ok) { base = call_of cntl service method payload } in
      let (wbuf, packed, holds, extra) =
        pack_request-queued ctx (clear-Holds h) refl small fits (omega (arith, room)) in
      (
        wbuf,
        ap (λ p. start_with E p cntl service method payload closure c w) speaks
            ∙ rw (le→ltb uint32_max (length payload) (omega (arith, fits))) (rw packed refl),
        holds,
        extra,
      )

  pub call_method-ReceivesHttp :
      (answer : Context) (cntl : PbController) (service method payload : Bytes) (c : TcpConnection)
      (w : PbClient K D) {unsent unread : Bytes}
      → w.protocol ≡ some http_protocol
      → length payload < 2 ^ 31
      → Holds c.wbuf unsent
      → length c.wbuf.storage < 2 ^ 30
      → 114 + length service + length method ≤ 2 * length c.wbuf.storage
      → Holds c.rbuf unread
      → length c.rbuf.storage < 2 ^ 30
      → length answer.payload < 2 ^ 31
      → 113 + length answer.payload ≤ length c.rbuf.storage
      → w.has_loop ≡ false
      → c.channel.sevent ≡ 0
      → Receives E answer.payload w (
          call_method E cntl service method payload none
            ((
              took (length (request_head (call_of cntl service method payload))),
              took (length payload),
            )
              ∷ [])
            (came (http_response answer) ∷ [])
            c
            w)
  unfolding call_method send_call is_async
  call_method-ReceivesHttp answer cntl service method payload c w speaks fits sent small room h size
        short space alone idle =
      let call = call_of cntl service method payload in
      let (wbuf, packed, holds, extra) =
        start_call-PacksHttp cntl service method payload none c w speaks fits sent small room in
      let queue : length (request_head call) ≢ 0 = omega arith in
      let (c', w', done, received, gone, freed) =
        sync_call-Receives E (http_context call) (http_response answer) answer.payload c w
          (request_head call) payload (λ b k. http_response-Answers answer call short k)
          (omega arith) holds extra queue h size
          (omega (arith, space, length-headers answer answer.payload)) alone idle in
      (c', w', rw packed (rw done refl), received, gone, freed)
