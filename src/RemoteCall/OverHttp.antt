-- ===== src/RemoteCall/OverHttp.antt =====
-- A client and a server that speak HTTP.
use small_rpc.Prelude.{
  ◌+◌, ◌*◌, ◌^◌, ◌<◌, ◌≤◌, ◌≡◌, ap, sym, subst, ◌∙◌, arith, List, [], ◌∷◌, ◌++◌, append_assoc,
  append-nil, length, Bytes, none, some, true, false, returns,
}
use small_rpc.Buffer.Contents.{Holds, outgoing}
use small_rpc.Buffer.Socket.{took, came}
use small_rpc.Buffer.Socket.Stream.{outgoing-Extra}
use small_rpc.EventLoop.{Epoll}
use small_rpc.Http.Pack.{request_head, headers-append}
use small_rpc.Http.Wire.{IsSendable, line, request_line, headers}
use small_rpc.PbClient.{PbClient, PbController, start_call, call_method}
use small_rpc.PbClient.Call.{call_of, Receives}
use small_rpc.PbClient.CallHttp.{start_call-PacksHttp, call_method-ReceivesHttp}
use small_rpc.PbServer.{PbServer, Method, find_service_method}
use small_rpc.PbServer.Handlers.{World, data_read_callback}
use small_rpc.PbServer.Serve.{answer_of}
use small_rpc.PbServer.ServeHttp.{request_text, data_read_callback-AnsweredHttp}
use small_rpc.Protocol.{Context}
use small_rpc.Protocols.{Protocol, simple_protocol, http_protocol}
use small_rpc.RemoteCall.{request_bytes}
use small_rpc.TcpConnection.{TcpConnection}
use small_rpc.TimeStamp.{TimeStamp}

head_payload : (call : Context) → request_head call ++ call.payload ≡ request_text call []
head_payload call =
    append_assoc (request_line call) (b'\r' ∷ b'\n' ∷ headers call []) call.payload
    ∙ ap (λ x. line (request_line call) x)
        (headers-append call [] call.payload ∙ ap (headers call) (sym (append-nil call.payload)))

module _ {K L D : Type 0} (E : Epoll K) (F : Epoll L) where
  -- Let a client without a loop, that never told epoll anything, make a sendable call over HTTP, and let a
  -- connection of a server whose first two protocols are the simple one and HTTP, that has not spoken and has
  -- nothing to send, hold exactly what the client packed. The server knows the method, which answers with
  -- `response`, of fewer than 2 ^ 31 bytes. The client's buffers are well formed, they and the server's
  -- write buffer have storages of fewer than 2 ^ 30 bytes, twice a write buffer's storage has room
  -- for the text that is packed into it, and the storage of the client's read buffer has room for 113 bytes and
  -- `response`. Then the server keeps the connection with a response to send; and if the client's
  -- socket takes the request in one round and gives it what the server sends in one piece, `CallMethod`
  -- returns, exactly `response` is handed to the caller's message, and context and session are gone.
  pub call_over_http :
      (s : PbServer) (qs : List Protocol) (now : TimeStamp) (m : Method) (response : Bytes)
      (sc : TcpConnection) (sw : World L) (cntl : PbController) (service method payload : Bytes)
      (c c1 : TcpConnection) (w w1 : PbClient K D) {unsent unread : Bytes}
      → w.protocol ≡ some http_protocol
      → w.has_loop ≡ false
      → c.channel.sevent ≡ 0
      → IsSendable (call_of cntl service method payload)
      → Holds c.wbuf unsent
      → length c.wbuf.storage < 2 ^ 30
      → 114 + length service + length method ≤ 2 * length c.wbuf.storage
      → Holds c.rbuf unread
      → length c.rbuf.storage < 2 ^ 30
      → length response < 2 ^ 31
      → 113 + length response ≤ length c.rbuf.storage
      → start_call E cntl service method payload none c w ≡ returns (true, c1, w1)
      → s.protocols ≡ simple_protocol ∷ http_protocol ∷ qs
      → sc.proto_idx ≡ 0
      → sc.context ≡ none
      → Holds sc.rbuf (outgoing c1.wbuf)
      → find_service_method service method s ≡ some m
      → m payload ≡ some response
      → Holds sc.wbuf []
      → sc.wbuf.extra_index ≡ 0
      → length sc.wbuf.storage < 2 ^ 30
      → sc.wbuf.windex + 113 ≤ 2 * length sc.wbuf.storage
      → (sc' : TcpConnection) × (sw' : World L) × (data_read_callback F s now sc sw
          ≡ returns (some sc', sw'))
        × Receives E response w (
            call_method E cntl service method payload none
              ((
                took (length (request_head (call_of cntl service method payload))),
                took (length payload),
              )
                ∷ [])
              (came (outgoing sc'.wbuf) ∷ [])
              c
              w)
  call_over_http s qs now m response sc sw cntl service method payload c c1 w w1 speaks alone idle
        sendable sent small room h size short fits packed protocols start unused arrived known
        answers empty fresh narrow space =
      let call = call_of cntl service method payload in
      let (wbuf, packs, holds, extra) =
        start_call-PacksHttp E cntl service method payload none c w speaks sendable.payload_fits
          sent small room in
      let bytes : outgoing c1.wbuf ≡ request_text call [] =
        ap request_bytes (sym packed ∙ packs) ∙ outgoing-Extra holds extra ∙ head_payload call in
      let few : length (payload ++ []) < 2 ^ 31 =
        omega (arith, sendable.payload_fits, ap length (append-nil payload)) in
      let (sc', sw', served, response_bytes, _, _) =
        data_read_callback-AnsweredHttp F s qs now call [] response m sc sw protocols start unused
          sendable few (subst (λ (b : Bytes). Holds sc.rbuf b) bytes arrived) known answers empty
          fresh narrow space in
      let receives =
        call_method-ReceivesHttp E (answer_of call response) cntl service method payload c w speaks
          sendable.payload_fits sent small room h size short fits alone idle in
      (
        sc',
        sw',
        served,
        subst
            (λ (b : Bytes). Receives E response w (
              call_method E cntl service method payload none
                ((took (length (request_head call)), took (length payload)) ∷ []) (came b ∷ []) c
                w))
            (sym response_bytes) receives,
      )
