-- ===== src/RemoteCall.antt =====
-- A client of net/pb_client.cpp and a server of net/pb_server.cpp that speak the simple protocol.
pub mod OverHttp
use small_rpc.Prelude.{
  ◌+◌, ◌*◌, ◌^◌, ◌<◌, ◌≤◌, ◌≡◌, ap, sym, subst, ◌∙◌, Bool, List, [], ◌∷◌, ◌++◌, append-nil, length,
  Bytes, none, some, true, false, Run, returns, fault, out_of_fuel,
}
use small_rpc.Buffer.Contents.{Holds, outgoing}
use small_rpc.Buffer.Socket.{took, came}
use small_rpc.Buffer.Socket.Stream.{outgoing-Extra}
use small_rpc.EventLoop.{Epoll}
use small_rpc.PbClient.{PbClient, PbController, start_call, call_method}
use small_rpc.PbClient.Call.{call_of, Receives, start_call-Packs, call_method-Receives}
use small_rpc.PbServer.{PbServer, Method, find_service_method}
use small_rpc.PbServer.Handlers.{World, data_read_callback}
use small_rpc.PbServer.Serve.{answer_of, data_read_callback-Answered}
use small_rpc.Protocols.{Protocol, simple_protocol}
use small_rpc.Simple.Wire.{IsSendable, request_head}
use small_rpc.TcpConnection.{TcpConnection}
use small_rpc.TimeStamp.{TimeStamp}

module _ {K D : Type 0} where
  -- What a client that has packed its request has to send.
  abbrev pub request_bytes : Run (Bool × TcpConnection × PbClient K D) → Bytes
  request_bytes (returns (_, c, _)) = outgoing c.wbuf
  request_bytes fault = []
  request_bytes out_of_fuel = []

module _ {K L D : Type 0} (E : Epoll K) (F : Epoll L) where
  -- Let a client without a loop, that never told epoll anything, make a sendable call over the simple
  -- protocol, and let a connection of a server whose first protocol is the simple one, that has not spoken
  -- and has nothing to send, hold exactly what the client packed. The server knows the method, which
  -- answers with `response`, of fewer than 2 ^ 32 bytes. The client's buffers are well formed, they
  -- and the server's write buffer have storages of fewer than 2 ^ 30 bytes, twice a write buffer's
  -- storage has room for the head that is packed into it, and the storage of the client's read buffer
  -- has room for 16 bytes and `response`. Then the server keeps the connection with a response to
  -- send; and if the client's socket takes the request in one round and gives it what the server
  -- sends in one piece, `CallMethod` returns, exactly `response` is handed to the caller's message,
  -- and context and session are gone.
  pub call_method-data_read_callback :
      (s : PbServer) (ps : List Protocol) (now : TimeStamp) (m : Method) (response : Bytes)
      (sc : TcpConnection) (sw : World L) (cntl : PbController) (service method payload : Bytes)
      (c c1 : TcpConnection) (w w1 : PbClient K D) {unsent unread : Bytes}
      → w.protocol ≡ some simple_protocol
      → w.has_loop ≡ false
      → c.channel.sevent ≡ 0
      → IsSendable (call_of cntl service method payload)
      → Holds c.wbuf unsent
      → length c.wbuf.storage < 2 ^ 30
      → 17 + length service + length method ≤ 2 * length c.wbuf.storage
      → Holds c.rbuf unread
      → length c.rbuf.storage < 2 ^ 30
      → length response < 2 ^ 32
      → 16 + length response ≤ length c.rbuf.storage
      → start_call E cntl service method payload none c w ≡ returns (true, c1, w1)
      → s.protocols ≡ simple_protocol ∷ ps
      → sc.proto_idx ≡ 0
      → sc.context ≡ none
      → Holds sc.rbuf (outgoing c1.wbuf)
      → find_service_method service method s ≡ some m
      → m payload ≡ some response
      → Holds sc.wbuf []
      → sc.wbuf.extra_index ≡ 0
      → length sc.wbuf.storage < 2 ^ 30
      → sc.wbuf.windex + 16 ≤ 2 * length sc.wbuf.storage
      → (sc' : TcpConnection) × (sw' : World L) × (data_read_callback F s now sc sw
          ≡ returns (some sc', sw'))
        × Receives E response w (
            call_method E cntl service method payload none
              ((
                took (length (request_head (call_of cntl service method payload))),
                took (length payload),
              )
                ∷ [])
              (came (outgoing sc'.wbuf) ∷ [])
              c
              w)
  call_method-data_read_callback s ps now m response sc sw cntl service method payload c c1 w w1
        speaks alone idle sendable sent small room h size short fits packed protocols start unused
        arrived known answers empty fresh narrow space =
      let call = call_of cntl service method payload in
      let (wbuf, packs, holds, extra) =
        start_call-Packs E cntl service method payload none c w speaks sendable sent small room in
      let bytes : outgoing c1.wbuf ≡ request_head call ++ (payload ++ []) =
        ap request_bytes (sym packed ∙ packs)
        ∙ outgoing-Extra holds extra
        ∙ ap (λ p. request_head call ++ p) (sym (append-nil payload)) in
      let (sc', sw', served, response_bytes, _, _) =
        data_read_callback-Answered F s ps now call [] response m sc sw protocols start unused
          sendable (subst (λ (b : Bytes). Holds sc.rbuf b) bytes arrived) known answers empty fresh
          narrow short space in
      let receives =
        call_method-Receives E (answer_of call response) cntl service method payload c w speaks
          sendable sent small room h size short fits alone idle in
      (
        sc',
        sw',
        served,
        subst
            (λ (b : Bytes). Receives E response w (
              call_method E cntl service method payload none
                ((took (length (request_head call)), took (length payload)) ∷ []) (came b ∷ []) c
                w))
            (sym response_bytes) receives,
      )
