-- ===== src/PbServer/Late.antt =====
-- A method that keeps its closure and runs it later: the response comes when the connection has lived on.
use small_rpc.Prelude.{
  ℕ, ◌≡◌, refl, ap, Bool-cases, inl, inr, ◌==◌, if◌then◌else◌, ◌∙◌, Bytes, Option, none, some, Run,
  returns, fault, ◌>>=◌,
}
use small_rpc.Buffer.{view_str}
use small_rpc.EventLoop.{Epoll, has_channel, entry_is}
use small_rpc.PbServer.{PbServer, Method, find_service_method}
use small_rpc.PbServer.Closing.{IsOpen, close_callback-closes, same_time_refl}
use small_rpc.PbServer.Handlers.{World, close_callback, timeout_callback, response_callback}
use small_rpc.Protocols.{AnyContext, base_of}
use small_rpc.TcpConnection.{TcpConnection, Callback}
use small_rpc.TimeStamp.{TimeStamp}

module _ {K : Type 0} (E : Epoll K) where
  -- What follows the lookup of a method that keeps its closure: what `ReqRespConnPack` keeps is the
  -- connection, which stays as it is. What the method will answer is not used yet.
  unfoldable pub run_later : Bytes → Option Method → Callback (World K)
  run_later payload none c w = close_callback E c w
  run_later payload (some m) c w = elim (m payload) [
    | none ↦ close_callback E c w
    | some response ↦ returns (some c, w)
  ]

  -- `request_callback` where the method keeps its closure.
  unfoldable pub request_later : PbServer → Callback (World K)
  request_later s c w = elim c.context [
    | none ↦ fault
    | some ctx ↦ view_str (base_of ctx).payload_view c.rbuf >>= λ payload.
        run_later payload (find_service_method (base_of ctx).service (base_of ctx).method s) c w
  ]

  -- `response_callback` of a pack whose pointer finds `at_pointer`: `none` is a connection that was deleted.
  unfoldable pub late_response :
      PbServer
      → TimeStamp
      → Bytes
      → Option TcpConnection
      → World K
      → Run (Option TcpConnection × World K)
  late_response s now response at_pointer w = elim at_pointer [
    | none ↦ fault
    | some c ↦ elim c.context [
      | none ↦ fault
      | some ctx ↦ response_callback E s now response ctx c w
    ]
  ]

  found_again :
      (c : TcpConnection) (w : World K) (id : ℕ)
      → IsOpen E c w
      → timeout_callback E c.ts id c w
        ≡ (if c.timer_id == id then close_callback E c w else returns (some c, w))
  unfolding timeout_callback has_channel entry_is
  found_again c w id o = rw (o.known, same_time_refl c.ts) refl

  late_response_gone :
      (s : PbServer) (now : TimeStamp) (response : Bytes) (c : TcpConnection) (w : World K)
      → IsOpen E c w
      → (close_callback E c w >>= λ r. late_response s now response r.0 r.1) ≡ fault
  unfolding late_response
  late_response_gone s now response c w o =
      let (w', closes, _, _, _) = close_callback-closes E c w o in rw closes refl

  late_response_there :
      (s : PbServer) (now : TimeStamp) (response : Bytes) (ctx : AnyContext) (c : TcpConnection)
      (w : World K)
      → c.context ≡ some ctx
      → late_response s now response (some c) w ≡ response_callback E s now response ctx c w
  unfolding late_response
  late_response_there s now response ctx c w there =
      ap
        (λ slot. elim slot as (λ x. Run (Option TcpConnection × World K)) [
          | none ↦ fault
          | some ctx ↦ response_callback E s now response ctx c w
        ])
        there

  request_later_stays :
      (s : PbServer) (m : Method) (ctx : AnyContext) (payload response : Bytes) (c : TcpConnection)
      (w : World K)
      → c.context ≡ some ctx
      → view_str (base_of ctx).payload_view c.rbuf ≡ returns payload
      → find_service_method (base_of ctx).service (base_of ctx).method s ≡ some m
      → m payload ≡ some response
      → request_later s c w ≡ returns (some c, w)
  unfolding request_later run_later
  request_later_stays s m ctx payload response c w there body known answers =
      ap
        (λ slot. elim slot as (λ x. Run (Option TcpConnection × World K)) [
          | none ↦ fault
          | some ctx ↦ view_str (base_of ctx).payload_view c.rbuf >>= λ payload.
              run_later payload (find_service_method (base_of ctx).service (base_of ctx).method s) c
                w
        ])
        there
      ∙ rw (body, known, answers) refl

  -- A method that the server knows gets a request that protobuf parses, on an open connection, and keeps its
  -- closure: the connection stays as it is, with the number of its last timer. Then a timer of the connection
  -- fires, and after that the method's response comes. If it is an older timer, the response is treated like one
  -- that comes at once; if it is the last one, it has closed the connection, and the response uses a
  -- deleted object.
  pub late_response-timeout_callback :
      (s : PbServer) (now : TimeStamp) (m : Method) (payload response : Bytes) (ctx : AnyContext)
      (id : ℕ) (c : TcpConnection) (w : World K)
      → IsOpen E c w
      → c.context ≡ some ctx
      → view_str (base_of ctx).payload_view c.rbuf ≡ returns payload
      → find_service_method (base_of ctx).service (base_of ctx).method s ≡ some m
      → m payload ≡ some response
      → (request_later s c w ≡ returns (some c, w))
        × ((timeout_callback E c.ts id c w >>= λ r. late_response s now response r.0 r.1)
            ≡ (if c.timer_id == id then fault else response_callback E s now response ctx c w))
  late_response-timeout_callback s now m payload response ctx id c w o there body known answers = (
    request_later_stays s m ctx payload response c w there body known answers,
    rw (found_again c w id o) (elim (Bool-cases (c.timer_id == id)) [
      | inl last ↦ rw last (late_response_gone s now response c w o)
      | inr older ↦ rw older (late_response_there s now response ctx c w there)
    ]),
  )
