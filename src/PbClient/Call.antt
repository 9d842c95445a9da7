-- ===== src/PbClient/Call.antt =====
-- A synchronous call over the simple protocol.
use small_rpc.Prelude.{
  ◌+◌, ◌*◌, ◌^◌, ◌<◌, ◌≤◌, ◌≡◌, ◌≢◌, refl, ap, sym, subst, ◌∙◌, arith, true, false, ◌==◌, ◌&&◌,
  ne→==, [], ◌∷◌, ◌++◌, length, length-append, append-nil, be_bytes, Bytes, Option, none, some, Run,
  returns, le→ltb,
}
use small_rpc.Buffer.{Buffer, clear, readable, extraable, writeable}
use small_rpc.Buffer.Contents.{Holds, readable-Holds, clear-Holds}
use small_rpc.Buffer.Socket.{took, came}
use small_rpc.Buffer.Socket.Arrive.{read_fd-Holds}
use small_rpc.Buffer.Socket.Stream.{Extra, extraable-Extra, write_fd-Whole}
use small_rpc.EventLoop.{Epoll}
use small_rpc.PbClient.{
  PbClient, PbController, call_base, start_call, start_with, write_all, session_done, read_once,
  read_all, sync_call, send_call, is_async, call_method, uint32_max,
}
use small_rpc.PbClient.Session.{
  fresh_context, Answers, parse_response-Answers, got_response, data_read_callback-alone,
}
use small_rpc.PbClient.Waiting.{in_call, waiting}
use small_rpc.Protocol.{Context, new_context, ok}
use small_rpc.Protocols
use small_rpc.Protocols.{AnyContext, simple_protocol, set_base, base_of}
use small_rpc.Simple.{new_simple}
use small_rpc.Simple.Pack.{pack_request-queued}
use small_rpc.Simple.Wire.{IsSendable, request_head, response_head}
use small_rpc.TcpConnection.{TcpConnection}

-- The call that `CallMethod` makes.
abbrev pub call_of : PbController → Bytes → Bytes → Bytes → Context
call_of cntl service method payload = call_base cntl service method payload (new_context ok)

-- The bytes of an answer.
abbrev pub response_of : Context → Bytes
response_of answer = response_head answer ++ answer.payload

pub length-response_of :
    (answer : Context) → length (response_of answer) ≡ 16 + length answer.payload
unfolding response_head be_bytes
length-response_of answer = omega arith

length-request_head : (call : Context) → 17 ≤ length (request_head call)
unfolding request_head be_bytes
length-request_head call = omega (
  arith,
  length-append call.service (b'/' ∷ (call.method ++ be_bytes (length call.payload))),
  length-append call.method (be_bytes (length call.payload)),
)

-- The loop that writes, when the socket takes everything in one round.
write_all_once :
    {b : Buffer} (live extra : Bytes)
    → Holds b live
    → Extra b extra
    → length live ≢ 0
    → (b' : Buffer) × (write_all ((took (length live), took (length extra)) ∷ []) b ≡ returns b')
unfolding write_all
write_all_once {b} live extra h e queue =
    let (w, done, _, empty, all_sent) = write_fd-Whole live extra h e in
    let queued : readable b ≢ 0 = omega (arith, readable-Holds h, queue) in
    let busy : (readable b == 0 && extraable b == 0) ≡ false =
      rw (ne→== (readable b) 0 queued) refl in
    let idle : (readable w.buffer == 0 && extraable w.buffer == 0) ≡ true =
      rw (readable-Holds empty, extraable-Extra all_sent) refl in
    (w.buffer, rw (busy, write_all) (rw done (rw idle refl)))

clear_room : {b : Buffer} {live : Bytes} → Holds b live → writeable (clear b) ≡ length b.storage
unfolding clear writeable
clear_room h = omega (arith, h.fits)

module _ {K D : Type 0} (E : Epoll K) where
  -- The loop that reads, when the response arrives in one round.
  read_all_once :
      (ctx : AnyContext) (bytes payload : Bytes) (c : TcpConnection) (w : PbClient K D)
      {live : Bytes}
      → ((b : Buffer) → Holds b bytes → Answers ctx payload b)
      → length bytes ≢ 0
      → Holds c.rbuf live
      → length c.rbuf.storage < 2 ^ 30
      → length bytes ≤ length c.rbuf.storage
      → w.has_loop ≡ false
      → c.channel.sevent ≡ 0
      → (c' : TcpConnection) × (read_all E
            (came bytes ∷ [])
            (in_call ctx (record c { rbuf = clear c.rbuf }))
            (waiting none w)
          ≡ returns (c', got_response none payload w))
  unfolding read_all session_done read_once
  read_all_once ctx bytes payload c w answers some_bytes h small room alone idle =
      let space = clear_room h in
      let roomy : writeable (clear c.rbuf) ≢ 0 = omega (arith, space, room, some_bytes) in
      let (r, read, _, holds) =
        read_fd-Holds bytes (clear-Holds h) (unfold clear in omega (arith, small))
          (rw (ne→== (writeable (clear c.rbuf)) 0 roomy) (omega (arith, space, room))) in
      let (c', over) =
        data_read_callback-alone E ctx payload (record c { rbuf = r.buffer }) w
          (answers r.buffer holds) alone idle in
      (c', rw read (rw over refl))

  pub start_call-Packs :
      (cntl : PbController) (service method payload : Bytes) (closure : Option D)
      (c : TcpConnection) (w : PbClient K D) {live : Bytes}
      → w.protocol ≡ some simple_protocol
      → IsSendable (call_of cntl service method payload)
      → Holds c.wbuf live
      → length c.wbuf.storage < 2 ^ 30
      → 17 + length service + length method ≤ 2 * length c.wbuf.storage
      → (wbuf : Buffer) × (start_call E cntl service method payload closure c w
          ≡ returns (
            true,
            in_call
                (fresh_context (call_of cntl service method payload))
                (record c { rbuf = clear c.rbuf; wbuf = wbuf }),
            waiting closure w,
          ))
        × Holds wbuf (request_head (call_of cntl service method payload))
        × Extra wbuf payload
  unfolding start_call start_with clear simple_protocol Protocols.pack_request new_simple
  start_call-Packs cntl service method payload closure c w speaks sendable h small room =
      let (wbuf, packed, holds, extra) =
        pack_request-queued (record { base = call_of cntl service method payload; stage = 0 })
          (clear-Holds h) refl small sendable (omega (arith, room)) in
      (
        wbuf,
        ap (λ p. start_with E p cntl service method payload closure c w) speaks
            ∙ rw (le→ltb uint32_max (length payload) (omega (arith, sendable.payload_fits)))
                (rw packed refl),
        holds,
        extra,
      )

  -- The call returns, `payload` was handed to the response, and context and session are gone.
  abbrev pub Receives : Bytes → PbClient K D → Run (TcpConnection × PbClient K D) → Type 0
  Receives payload w run =
      (c' : TcpConnection) × (w' : PbClient K D) × (run ≡ returns (c', w'))
      × (w'.received ≡ w.received ++ payload ∷ [])
      × (w'.session ≡ none)
      × (c'.context ≡ none)

  pub sync_call-Receives :
      (ctx : AnyContext) (bytes answer : Bytes) (c : TcpConnection) (w : PbClient K D)
      (head payload : Bytes) {wbuf : Buffer} {old : Bytes}
      → ((b : Buffer) → Holds b bytes → Answers ctx answer b)
      → length bytes ≢ 0
      → Holds wbuf head
      → Extra wbuf payload
      → length head ≢ 0
      → Holds c.rbuf old
      → length c.rbuf.storage < 2 ^ 30
      → length bytes ≤ length c.rbuf.storage
      → w.has_loop ≡ false
      → c.channel.sevent ≡ 0
      → Receives answer w (
          sync_call E
            ((took (length head), took (length payload)) ∷ [])
            (came bytes ∷ [])
            (in_call ctx (record c { rbuf = clear c.rbuf; wbuf = wbuf }))
            (waiting none w))
  unfolding sync_call
  sync_call-Receives ctx bytes answer c w head payload {wbuf} answers some_bytes holds extra queue h
        small room alone idle =
      let (left, written) = write_all_once head payload holds extra queue in
      let (c', reads) =
        read_all_once ctx bytes answer (record c { wbuf = left }) w answers some_bytes h small room
          alone idle in
      (
        record c' { context = none },
        record w { session = none; received = w.received ++ answer ∷ [] },
        rw written (rw reads refl),
        refl,
        refl,
        refl,
      )

  -- Over the simple protocol, let a client without a loop, that never told epoll anything, make a sendable
  -- call. Both buffers are well formed, with storages of fewer than 2 ^ 30 bytes; the head of the request
  -- fits twice the storage of the write buffer, and a response, whose payload has fewer than 2 ^ 32
  -- bytes, fits the storage of the read buffer. If the socket takes the head and the payload in one
  -- round and the response arrives in one piece, then `CallMethod` returns, the payload of the response
  -- is handed to the caller's message, and context and session are gone.
  pub call_method-Receives :
      (answer : Context) (cntl : PbController) (service method payload : Bytes) (c : TcpConnection)
      (w : PbClient K D) {unsent unread : Bytes}
      → w.protocol ≡ some simple_protocol
      → IsSendable (call_of cntl service method payload)
      → Holds c.wbuf unsent
      → length c.wbuf.storage < 2 ^ 30
      → 17 + length service + length method ≤ 2 * length c.wbuf.storage
      → Holds c.rbuf unread
      → length c.rbuf.storage < 2 ^ 30
      → length answer.payload < 2 ^ 32
      → 16 + length answer.payload ≤ length c.rbuf.storage
      → w.has_loop ≡ false
      → c.channel.sevent ≡ 0
      → Receives answer.payload w (
          call_method E cntl service method payload none
            ((
              took (length (request_head (call_of cntl service method payload))),
              took (length payload),
            )
              ∷ [])
            (came (response_of answer) ∷ [])
            c
            w)
  unfolding call_method send_call is_async
  call_method-Receives answer cntl service method payload c w speaks sendable sent small room h size
        short fits alone idle =
      let call = call_of cntl service method payload in
      let (wbuf, packed, holds, extra) =
        start_call-Packs cntl service method payload none c w speaks sendable sent small room in
      let queue : length (request_head call) ≢ 0 = omega (arith, length-request_head call) in
      let (c', w', done, received, gone, freed) =
        sync_call-Receives (fresh_context call) (response_of answer) answer.payload c w
          (request_head call) payload
          (λ b k.
            parse_response-Answers answer call [] short (
              subst (λ p. Holds b (response_head answer ++ p)) (sym (append-nil answer.payload)) k))
          (omega (arith, length-response_of answer)) holds extra queue h size
          (omega (arith, length-response_of answer, fits)) alone idle in
      (c', w', rw packed (rw done refl), received, gone, freed)
