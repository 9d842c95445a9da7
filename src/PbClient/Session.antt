-- ===== src/PbClient/Session.antt =====
-- What a response does to the session of a client.
use small_rpc.Prelude.{
  ◌^◌, ◌<◌, ◌≡◌, refl, ap, sym, subst, ◌∙◌, true, false, [], ◌∷◌, ◌++◌, length, Bytes, Option, none,
  some, returns,
}
use small_rpc.Buffer.{Buffer, view_str}
use small_rpc.Buffer.Contents.{Holds}
use small_rpc.EventLoop.{Channel, Epoll}
use small_rpc.EventLoop.Watch.{IsSynced, entry_of, update_channel-Updates}
use small_rpc.PbClient.{
  PbClient, tell_loop, close_callback, finish, response_callback, mark_done, after_parse,
  data_read_callback,
}
use small_rpc.PbClient.Waiting.{in_call, waiting}
use small_rpc.Protocol.{Context, success}
use small_rpc.Protocols.{AnyContext, base_of, simple, gives, parse_response}
use small_rpc.Simple.RoundTrip.{parse_response-ReadsResponse}
use small_rpc.Simple.Wire.{response_head}
use small_rpc.TcpConnection.{TcpConnection, set_event}

-- A fresh context of the simple protocol around the fields of a call.
abbrev pub fresh_context : Context → AnyContext
fresh_context base = simple (record { base = base; stage = 0 })

-- The response `answer` is in front of the queue, in full.
abbrev pub Arrived : Context → Bytes → Buffer → Type 0
Arrived answer rest b = Holds b (response_head answer ++ (answer.payload ++ rest))

-- A context parses the queue as a whole response with this payload.
abbrev pub Answers : AnyContext → Bytes → Buffer → Type 0
Answers ctx payload b =
    (ctx' : AnyContext) × (rest : Buffer) × (parse_response ctx b ≡ gives success (some ctx') rest)
    × (view_str (base_of ctx').payload_view rest ≡ returns payload)

pub parse_response-Answers :
    (answer base : Context) {b : Buffer} (rest : Bytes)
    → length answer.payload < 2 ^ 32
    → Arrived answer rest b
    → Answers (fresh_context base) answer.payload b
unfolding parse_response
parse_response-Answers answer base {b} rest fits h =
    let (p, run, status, kind, ok, payload, _) =
      parse_response-ReadsResponse answer base rest fits h in
    (
      simple p.context,
      p.rest,
      rw run (ap (λ st. gives st (some (simple p.context)) p.rest) status),
      payload,
    )

-- A session whose response was read.
abbrev pub got_response : {K D : Type 0} → Option D → Bytes → PbClient K D → PbClient K D
got_response closure payload w = record w {
  session = some (record { done = closure; read_response_done = true });
  received = w.received ++ payload ∷ [];
}

module _ {K D : Type 0} (E : Epoll K) where
  -- The caller's message gets this payload, its closure runs once, context and session are gone, and
  -- epoll no longer watches the client.
  abbrev pub Finishes : AnyContext → Bytes → D → TcpConnection → PbClient K D → Type 0
  Finishes ctx payload d c w =
      (c' : TcpConnection) × (w' : PbClient K D) × (data_read_callback E (in_call ctx c)
          (waiting (some d) w)
        ≡ returns (some c', w'))
      × (w'.received ≡ w.received ++ payload ∷ [])
      × (w'.ran ≡ w.ran ++ d ∷ [])
      × (w'.session ≡ none)
      × (c'.context ≡ none)
      × (E.watched w'.kernel c.channel.fd ≡ none)

  data_read_callback-finish :
      (ctx : AnyContext) (payload : Bytes) (closure : Option D) (c : TcpConnection)
      (w : PbClient K D)
      → Answers ctx payload c.rbuf
      → (c' : TcpConnection) × (data_read_callback E (in_call ctx c) (waiting closure w)
          ≡ finish E
              (record { done = closure; read_response_done = true })
              c'
              (got_response closure payload w))
        × (c'.channel ≡ c.channel)
  unfolding data_read_callback after_parse mark_done response_callback
  data_read_callback-finish ctx payload closure c w (ctx', rest, parsed, body) =
      (record c { context = some ctx'; rbuf = rest }, rw parsed (rw body refl), refl)

  tell_loop_looped :
      (c : TcpConnection) (w : PbClient K D)
      → w.has_loop ≡ true
      → IsSynced E c.channel w.kernel
      → (k' : K) × (tell_loop E (set_event 0 c) w
          ≡ returns (
            record c { channel = record c.channel { event = 0; sevent = 0 } },
            record w { kernel = k' },
          ))
        × IsSynced E (record c.channel { event = 0; sevent = 0 }) k'
  unfolding tell_loop set_event
  tell_loop_looped c w looped synced =
      let (k', ok, synced') =
        update_channel-Updates E (record c.channel { event = 0 }) w.kernel synced
          (λ (_, wanted, _). wanted refl) in
      (k', simp (looped, ok), synced')

  tell_loop_alone :
      (c : TcpConnection) (w : PbClient K D)
      → w.has_loop ≡ false
      → c.channel.sevent ≡ 0
      → tell_loop E (set_event 0 c) w ≡ returns (set_event 0 c, w)
  unfolding tell_loop set_event
  tell_loop_alone c w alone idle = simp (alone, idle)

  -- A response in an asynchronous call: what is left of the session.
  pub data_read_callback-asynchronous :
      (ctx : AnyContext) (payload : Bytes) (d : D) (c : TcpConnection) (w : PbClient K D)
      → Answers ctx payload c.rbuf
      → w.has_loop ≡ true
      → IsSynced E c.channel w.kernel
      → Finishes ctx payload d c w
  unfolding finish close_callback entry_of
  data_read_callback-asynchronous ctx payload d c w answers looped synced =
      let (c1, read, same) = data_read_callback-finish ctx payload (some d) c w answers in
      let synced1 : IsSynced E c1.channel w.kernel =
        subst (λ (ch : Channel). IsSynced E ch w.kernel) (sym same) synced in
      let over : PbClient K D = record w {
        session = none;
        received = w.received ++ payload ∷ [];
        ran = w.ran ++ d ∷ [];
      } in
      let (k', ok, gone) = tell_loop_looped (record c1 { context = none }) over looped synced1 in
      (
        record c1 { context = none; channel = record c1.channel { event = 0; sevent = 0 } },
        record over { kernel = k' },
        rw read (rw ok refl),
        refl,
        refl,
        refl,
        refl,
        subst (λ (ch : Channel). E.watched k' ch.fd ≡ none) same gone,
      )

  -- A response in a synchronous call, of a client without a loop.
  pub data_read_callback-alone :
      (ctx : AnyContext) (payload : Bytes) (c : TcpConnection) (w : PbClient K D)
      → Answers ctx payload c.rbuf
      → w.has_loop ≡ false
      → c.channel.sevent ≡ 0
      → (c' : TcpConnection) × (data_read_callback E (in_call ctx c) (waiting none w)
          ≡ returns (some c', got_response none payload w))
  unfolding finish close_callback
  data_read_callback-alone ctx payload c w answers alone idle =
      let (c1, read, same) = data_read_callback-finish ctx payload none c w answers in
      let idle1 : c1.channel.sevent ≡ 0 = ap (λ (ch : Channel). ch.sevent) same ∙ idle in
      (
        set_event 0 c1,
        rw read (rw (tell_loop_alone c1 (got_response none payload w) alone idle1) refl),
      )
