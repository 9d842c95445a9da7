-- ===== src/PbServer/Choice.antt =====
-- Which protocol a connection speaks.
use small_rpc.Prelude.{
  ℕ, ◌+◌, ◌≡◌, ◌≢◌, ◌≤◌, refl, arith, true, false, List, [], ◌∷◌, ◌++◌, length, All, Option, none,
  some, Run, returns, ap, drop, ◌∙◌, sym, subst, ◌⊎◌, inl, inr, le→ltb, ne→==,
}
use small_rpc.Buffer.{Buffer, readable, peek_uint32}
use small_rpc.EventLoop.{Epoll}
use small_rpc.Http.State.{match_method}
use small_rpc.PbServer.{PbServer, Tried, tried, is_try_another, try_protocols}
use small_rpc.PbServer.Handlers.{World, close_callback, data_read_callback, after_tries}
use small_rpc.Protocol.{ParseProtocolStatus, try_another_protocol}
use small_rpc.Protocols.{
  AnyContext, Outcome, Protocol, gives, simple_protocol, http_protocol, simple_parse, simple_start,
  http_parse, http_start,
}
use small_rpc.Simple.{magic_num}
use small_rpc.TcpConnection.{TcpConnection}
use small_rpc.TimeStamp.{TimeStamp}

-- A protocol that takes the first bytes for another's, and touches nothing.
abbrev pub Declines : Buffer → Option AnyContext → Protocol → Type 0
Declines b slot p = p.parse b slot ≡ gives try_another_protocol slot b

try_protocols-decline :
    (p : Protocol) (ps : List Protocol) (index : ℕ) (last : Option ParseProtocolStatus) (b : Buffer)
    (slot : Option AnyContext)
    → Declines b slot p
    → try_protocols (p ∷ ps) index last b slot
      ≡ try_protocols ps (index + 1) (some try_another_protocol) b slot
unfolding try_protocols is_try_another
try_protocols-decline p ps index last b slot declined = rw declined refl

pub try_protocols-answer :
    (p : Protocol) (ps : List Protocol) (index : ℕ) (last : Option ParseProtocolStatus) (b : Buffer)
    (slot : Option AnyContext) (o : Outcome)
    → p.parse b slot ≡ returns o
    → is_try_another o.status ≡ false
    → try_protocols (p ∷ ps) index last b slot ≡ returns (tried (some o.status) index o)
unfolding try_protocols
try_protocols-answer p ps index last b slot o answer speaks = rw answer (
    ap
      (λ again. elim again as (λ x. Run Tried) [
        | true ↦ try_protocols ps (index + 1) (some o.status) o.rest o.slot
        | false ↦ returns (tried (some o.status) index o)
      ])
      speaks)

-- The loop passes every protocol that declines and stops at the first one that does not, whose
-- outcome it keeps with that protocol's index.
pub try_protocols-first :
    (ps qs : List Protocol) (p : Protocol) (index : ℕ) (last : Option ParseProtocolStatus)
    (b : Buffer) (slot : Option AnyContext) (o : Outcome)
    → All (Declines b slot) ps
    → p.parse b slot ≡ returns o
    → is_try_another o.status ≡ false
    → try_protocols (ps ++ p ∷ qs) index last b slot
      ≡ returns (tried (some o.status) (index + length ps) o)
try_protocols-first [] qs p index last b slot o declined answer speaks =
    let shift : index ≡ index + length {A = Protocol} [] = omega arith in
    rw (try_protocols-answer p qs index last b slot o answer speaks)
      (ap (λ i. returns (tried (some o.status) i o)) shift)
try_protocols-first (q ∷ ps) qs p index last b slot o declined answer speaks =
    let later = some try_another_protocol in
    let shift : index + 1 + length ps ≡ index + length (q ∷ ps) = omega arith in
    rw
      (
        try_protocols-decline q (ps ++ p ∷ qs) index last b slot declined.0,
        try_protocols-first ps qs p (index + 1) later b slot o declined.1 answer speaks,
      )
      (ap (λ i. returns (tried (some o.status) i o)) shift)

try_protocols-none :
    (ps : List Protocol) (index : ℕ) (last : Option ParseProtocolStatus) (b : Buffer)
    (slot : Option AnyContext)
    → All (Declines b slot) ps
    → (status : Option ParseProtocolStatus) × (try_protocols ps index last b slot
        ≡ returns (record { status = status; index = index + length ps; slot = slot; rest = b }))
unfolding try_protocols
try_protocols-none [] index last b slot declined =
    let shift : index ≡ index + length {A = Protocol} [] = omega arith in
    (last, ap (λ i. returns (record { status = last; index = i; slot = slot; rest = b })) shift)
try_protocols-none (q ∷ ps) index last b slot declined =
    let (status, e) =
      try_protocols-none ps (index + 1) (some try_another_protocol) b slot declined.1 in
    let shift : index + 1 + length ps ≡ index + length (q ∷ ps) = omega arith in
    (
      status,
      try_protocols-decline q ps index last b slot declined.0
          ∙ e
          ∙ ap (λ i. returns (record { status = status; index = i; slot = slot; rest = b })) shift,
    )

-- When every protocol of the server declines the first bytes of a new connection, the connection is
-- closed; a server without protocols closes it too.
pub data_read_callback-declined :
    {K : Type 0} (E : Epoll K) (s : PbServer) (now : TimeStamp) (c : TcpConnection) (w : World K)
    → c.proto_idx ≡ 0
    → All (Declines c.rbuf c.context) s.protocols
    → data_read_callback E s now c w
      ≡ close_callback E (record c { proto_idx = length s.protocols }) w
unfolding data_read_callback after_tries
data_read_callback-declined E s now c w fresh declined =
    let (status, e) = try_protocols-none s.protocols 0 none c.rbuf c.context declined in
    let sum : 0 + length s.protocols ≡ length s.protocols = omega arith in
    rw fresh (
      rw e (
        rw (le→ltb (0 + length s.protocols) (length s.protocols) (omega arith))
          (ap (λ i. close_callback E (record c { proto_idx = i }) w) sum)))

-- `SimpleProtocol` declines four bytes that are not its magic number.
pub simple_protocol-Declines :
    (b : Buffer) (word : ℕ)
    → 4 ≤ readable b
    → peek_uint32 b ≡ returns word
    → word ≢ magic_num
    → Declines b none simple_protocol
unfolding simple_protocol simple_parse simple_start
simple_protocol-Declines b word enough first other =
    rw (le→ltb (readable b) 4 enough, first, ne→== word magic_num other) refl

-- `HTTPProtocol` declines seven bytes that begin with none of its methods.
pub http_protocol-Declines :
    (b : Buffer)
    → 7 ≤ readable b
    → match_method (drop b.rindex b.storage) ≡ returns none
    → Declines b none http_protocol
unfolding http_protocol http_parse http_start
http_protocol-Declines b enough other = rw (le→ltb (readable b) 7 enough, other) refl

-- `p` is one of the two protocols of this library.
abbrev pub IsBuiltIn : Protocol → Type 0
IsBuiltIn p = (p ≡ simple_protocol) ⊎ (p ≡ http_protocol)

Declines-All :
    (ps : List Protocol) (b : Buffer) (slot : Option AnyContext)
    → All IsBuiltIn ps
    → Declines b slot simple_protocol
    → Declines b slot http_protocol
    → All (Declines b slot) ps
Declines-All [] b slot built_in of_simple of_http = tt
Declines-All (p ∷ ps) b slot (inl is, more) of_simple of_http =
    (subst (Declines b slot) (sym is) of_simple, Declines-All ps b slot more of_simple of_http)
Declines-All (p ∷ ps) b slot (inr is, more) of_simple of_http =
    (subst (Declines b slot) (sym is) of_http, Declines-All ps b slot more of_simple of_http)

-- A server that speaks the simple protocol and HTTP, in any order and any number, closes a new connection
-- whose first seven bytes are there and begin neither with the magic number nor with a
-- method of HTTP; its read buffer is as it was.
pub data_read_callback-strange :
    {K : Type 0} (E : Epoll K) (s : PbServer) (now : TimeStamp) (c : TcpConnection) (w : World K)
    (word : ℕ)
    → All IsBuiltIn s.protocols
    → c.proto_idx ≡ 0
    → c.context ≡ none
    → 7 ≤ readable c.rbuf
    → peek_uint32 c.rbuf ≡ returns word
    → word ≢ magic_num
    → match_method (drop c.rbuf.rindex c.rbuf.storage) ≡ returns none
    → data_read_callback E s now c w
      ≡ close_callback E (record c { proto_idx = length s.protocols }) w
data_read_callback-strange E s now c w word built_in fresh unused enough first other no_method =
    let of_simple = simple_protocol-Declines c.rbuf word (omega (arith, enough)) first other in
    let of_http = http_protocol-Declines c.rbuf enough no_method in
    let declined = Declines-All s.protocols c.rbuf none built_in of_simple of_http in
    data_read_callback-declined E s now c w fresh
      (subst (λ slot. All (Declines c.rbuf slot) s.protocols) (sym unused) declined)
