-- ===== src/PbServer/Serve.antt =====
-- A request of the simple protocol, from its bytes to the response in the write buffer.
use small_rpc.Prelude.{
  ℕ, List, ◌+◌, ◌*◌, ◌^◌, ◌≤◌, ◌<◌, ◌≡◌, refl, ap, ap₂, sym, subst, drop, ◌∙◌, arith, Bool, false,
  Bool-cases, inl, inr, le→ltb, lt→ltb, [], ◌∷◌, ◌++◌, append_assoc, Bytes, length, length-append,
  be_bytes, length-be_bytes, All, Option, none, some, Run, returns, ltb_ℤ, pos, ℤ,
}
use small_rpc.Buffer.{Buffer, readable, view_str}
use small_rpc.Buffer.Contents.{Holds, outgoing, readable-Holds, peek_uint32-Holds}
use small_rpc.EventLoop.{Channel, Epoll, add_func, run_after, wakeup}
use small_rpc.PbServer.{PbServer, Method, find_service_method, tried, is_try_another, try_protocols}
use small_rpc.PbServer.Choice.{Declines, try_protocols-first}
use small_rpc.PbServer.Handlers.{
  World, Task, update_task, arm, answered, response_callback, run_method, request_callback,
  after_status, after_tries, data_read_callback,
}
use small_rpc.Protocol.{Context, ok, success, new_context, conn_type_number, rpc_status_number}
use small_rpc.Protocols.{
  AnyContext, base_of, simple, Outcome, Protocol, simple_protocol, simple_parse, simple_start,
  run_simple, pack_response, gives,
}
use small_rpc.Simple.{SimpleContext, magic_num, new_simple, Parsed}
use small_rpc.Simple.Pack.{pack_response-outgoing}
use small_rpc.Simple.RoundTrip.{parse_request-ReadsRequest}
use small_rpc.Simple.Wire.{IsSendable, request_head, response_head}
use small_rpc.TcpConnection.{TcpConnection, epollout, set_event}
use small_rpc.TimeStamp.{TimeStamp}

-- The magic number in front of the queue.
simple_start-Holds :
    {b : Buffer} (rest : Bytes)
    → Holds b (be_bytes magic_num ++ rest)
    → simple_start b ≡ run_simple (new_simple ok) b
unfolding simple_start
simple_start-Holds {b} rest h =
    let enough : 4 ≤ readable b = omega (
      arith,
      readable-Holds h,
      length-append (be_bytes magic_num) rest,
      length-be_bytes magic_num,
    ) in
    rw (le→ltb (readable b) 4 enough, peek_uint32-Holds magic_num rest (omega arith) h) refl

-- What the simple protocol makes of a request that has arrived in full.
abbrev Reads : Context → Bytes → Buffer → Type 0
Reads call rest b =
    (p : Parsed) × (simple_protocol.parse b none
      ≡ returns (record { status = success; slot = some (simple p.context); rest = p.rest }))
    × (p.context.base.conn_type ≡ call.conn_type)
    × (p.context.base.service ≡ call.service)
    × (p.context.base.method ≡ call.method)
    × (view_str p.context.base.payload_view p.rest ≡ returns call.payload)

simple_protocol-Reads :
    (call : Context) {b : Buffer} (rest : Bytes)
    → IsSendable call
    → Holds b (request_head call ++ (call.payload ++ rest))
    → Reads call rest b
unfolding simple_protocol simple_parse run_simple request_head new_simple
simple_protocol-Reads call {b} rest sendable h =
    let (p, run, status, kind, service, method, payload, _) =
      parse_request-ReadsRequest call (new_context ok) rest sendable h in
    (
      p,
      simple_start-Holds _ (simp append_assoc at h)
          ∙ rw run (ap (λ st. gives st (some (simple p.context)) p.rest) status),
      kind,
      service,
      method,
      payload,
    )

-- A call with the response to it.
abbrev pub answer_of : Context → Bytes → Context
answer_of call response = record call { rpc_status = ok; payload = response }

module _ {K : Type 0} (E : Epoll K) where
  pub arm-keeps :
      (ms : ℤ) (is_read : Bool) (now : TimeStamp) (c : TcpConnection) (w : World K)
      → ((arm E ms is_read now c w).0.wbuf ≡ c.wbuf)
        × ((arm E ms is_read now c w).0.channel ≡ c.channel)
        × ((arm E ms is_read now c w).0.context ≡ c.context)
        × ((arm E ms is_read now c w).1.el.funcs ≡ w.el.funcs)
  unfolding arm run_after wakeup
  arm-keeps ms is_read now c w = elim (Bool-cases (ltb_ℤ (pos 0) ms)) [
    | inl on ↦ rw on (refl, refl, refl, refl)
    | inr off ↦ rw off (refl, refl, refl, refl)
  ]

  -- The connection at the address has the response of a call in its write buffer and wants to write, and the
  -- update that tells epoll so waits in its loop behind the functions that were there.
  abbrev pub Answered :
      ℕ → List Task → Context → Bytes → Run (Option TcpConnection × World K) → Type 0
  Answered address pending call response run =
      (c' : TcpConnection) × (w' : World K) × (run ≡ returns (some c', w'))
      × (outgoing c'.wbuf ≡ response_head (answer_of call response) ++ response)
      × (c'.channel.event ≡ epollout)
      × (w'.el.funcs ≡ pending ++ update_task address ∷ [])

  response_callback-Answered :
      (s : PbServer) (now : TimeStamp) (call : Context) (response : Bytes) (ctx : SimpleContext)
      (c : TcpConnection) (w : World K)
      → ctx.base.conn_type ≡ call.conn_type
      → Holds c.wbuf []
      → c.wbuf.extra_index ≡ 0
      → length c.wbuf.storage < 2 ^ 30
      → length response < 2 ^ 32
      → c.wbuf.windex + 16 ≤ 2 * length c.wbuf.storage
      → Answered c.address w.el.funcs call response
          (response_callback E s now response (simple ctx) c w)
  unfolding response_callback answered pack_response response_head set_event add_func wakeup
  response_callback-Answered s now call response ctx c w kind empty fresh small fits room =
      let full : SimpleContext = record ctx {
        base = record ctx.base { rpc_status = ok; payload = response };
      } in
      let (wbuf, packed, sent) = pack_response-outgoing full empty fresh small fits room in
      let ready = set_event epollout (record c { context = some (simple full); wbuf = wbuf }) in
      let w' = record w { el = add_func (update_task c.address) w.el } in
      let (kept, same_channel, _, queued) = arm-keeps s.write_timeout_ms false now ready w' in
      (
        (arm E s.write_timeout_ms false now ready w').0,
        (arm E s.write_timeout_ms false now ready w').1,
        rw packed refl,
        ap outgoing kept
            ∙ sent
            ∙ ap
                (λ t.
                  (be_bytes magic_num
                    ++ (be_bytes (conn_type_number t)
                        ++ (be_bytes (rpc_status_number ok) ++ be_bytes (length response))))
                  ++ response)
                kind,
        ap (λ (ch : Channel). ch.event) same_channel,
        queued,
      )

  pub request_callback-answers :
      (s : PbServer) (now : TimeStamp) (payload response : Bytes) (m : Method) (ctx : AnyContext)
      (c : TcpConnection) (w : World K)
      → view_str (base_of ctx).payload_view c.rbuf ≡ returns payload
      → find_service_method (base_of ctx).service (base_of ctx).method s ≡ some m
      → m payload ≡ some response
      → request_callback E s now (record c { context = some ctx }) w
        ≡ response_callback E s now response ctx (record c { context = some ctx }) w
  unfolding request_callback run_method
  request_callback-answers s now payload response m ctx c w body known answers =
      rw (body, known, answers) refl

  pub data_read_callback-success :
      (s : PbServer) (now : TimeStamp) (o : Outcome) (p : Protocol) (ps qs : List Protocol)
      (c : TcpConnection) (w : World K)
      → s.protocols ≡ ps ++ p ∷ qs
      → c.proto_idx ≡ 0
      → c.context ≡ none
      → All (Declines c.rbuf none) ps
      → p.parse c.rbuf none ≡ returns o
      → o.status ≡ success
      → data_read_callback E s now c w
        ≡ request_callback E s now
            (record c { proto_idx = 0 + length ps; context = o.slot; rbuf = o.rest })
            w
  unfolding data_read_callback after_tries after_status
  data_read_callback-success s now o p ps qs c w protocols start unused declined parsed status =
      let speaks : is_try_another o.status ≡ false =
        ap is_try_another status ∙ (unfold is_try_another in refl) in
      let tries : try_protocols (drop c.proto_idx s.protocols) c.proto_idx none c.rbuf c.context
          ≡ returns (tried (some o.status) (0 + length ps) o) =
        ap (λ i. try_protocols (drop i s.protocols) i none c.rbuf c.context) start
        ∙ ap (λ slot. try_protocols s.protocols 0 none c.rbuf slot) unused
        ∙ ap (λ l. try_protocols l 0 none c.rbuf none) protocols
        ∙ try_protocols-first ps qs p 0 none c.rbuf none o declined parsed speaks in
      let some_protocol : 0 + length ps < length s.protocols =
        omega (arith, ap length protocols, length-append ps (p ∷ qs)) in
      rw tries (
        rw (lt→ltb (0 + length ps) (length s.protocols) some_protocol) (
          ap
            (λ st.
              after_status E s now (some st)
                (record c { proto_idx = 0 + length ps; context = o.slot; rbuf = o.rest }) w)
            status))

  -- A server whose first protocol is the simple one gets a sendable call, in full, on a connection that has
  -- not spoken yet and has nothing to send. The storage of its write buffer has fewer than 2 ^ 30 bytes, and
  -- 16 more fit twice that storage. If the server knows the method and the method answers with fewer
  -- than 2 ^ 32 bytes, the connection stays, its write buffer holds exactly the response with the
  -- status `RpcStatus_OK` and the call's connection type, it wants to write, and the loop was given the
  -- function that updates its watch, behind those it had.
  pub data_read_callback-Answered :
      (s : PbServer) (ps : List Protocol) (now : TimeStamp) (call : Context) (rest response : Bytes)
      (m : Method) (c : TcpConnection) (w : World K)
      → s.protocols ≡ simple_protocol ∷ ps
      → c.proto_idx ≡ 0
      → c.context ≡ none
      → IsSendable call
      → Holds c.rbuf (request_head call ++ (call.payload ++ rest))
      → find_service_method call.service call.method s ≡ some m
      → m call.payload ≡ some response
      → Holds c.wbuf []
      → c.wbuf.extra_index ≡ 0
      → length c.wbuf.storage < 2 ^ 30
      → length response < 2 ^ 32
      → c.wbuf.windex + 16 ≤ 2 * length c.wbuf.storage
      → Answered c.address w.el.funcs call response (data_read_callback E s now c w)
  data_read_callback-Answered s ps now call rest response m c w protocols start unused sendable
        arrived known answers empty fresh small fits room =
      let (p, reads, kind, service, method, payload) =
        simple_protocol-Reads call rest sendable arrived in
      let o : Outcome = record {
        status = success;
        slot = some (simple p.context);
        rest = p.rest;
      } in
      let c' = record c { proto_idx = 0; context = some (simple p.context); rbuf = p.rest } in
      let method_known : find_service_method p.context.base.service p.context.base.method s
          ≡ some m =
        ap₂ (λ a b. find_service_method a b s) service method ∙ known in
      let answer : data_read_callback E s now c w
          ≡ response_callback E s now response (simple p.context) c' w =
        data_read_callback-success s now o simple_protocol [] ps c w protocols start unused tt reads
          refl
        ∙ request_callback-answers s now call.payload response m (simple p.context) c' w payload
            method_known answers in
      subst (Answered c.address w.el.funcs call response) (sym answer) (
        response_callback-Answered s now call response p.context c' w kind empty fresh small fits
          room)
