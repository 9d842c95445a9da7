-- ===== src/Http/Stream.antt =====
-- A request over HTTP, in whatever pieces it arrives.
use small_rpc.Prelude.{
  ◌+◌, ◌≤◌, ◌≡◌, ◌≢◌, inl, inr, refl, ap, subst, sym, ◌∙◌, arith, Bool, true, false, [], ◌∷◌, ◌++◌,
  append_assoc, append-nil, List, All, Bytes, length, length-append, Run, returns, ◌>>=◌,
}
use small_rpc.Buffer.{Buffer, view_str}
use small_rpc.Buffer.Contents.{Holds}
use small_rpc.Buffer.Packed.{join}
use small_rpc.Buffer.Socket.{Received, came, read_fd}
use small_rpc.Buffer.Socket.Arrive.{read_fd_roomy}
use small_rpc.Http.{parse_request}
use small_rpc.Http.Resume.{Unread, at_line, IsRead, parse_request-Progress}
use small_rpc.Http.RoundTrip.{before_line}
use small_rpc.Http.State.{HttpContext, HttpParsed, answer}
use small_rpc.Http.Stored.{kept_type}
use small_rpc.Http.Wire.{line, request_line, headers, IsSendable}
use small_rpc.Protocol.{
  Context, ConnType, ParseProtocolStatus, no_enough_data, success, error, try_another_protocol,
  part_success,
}

unfoldable pub is_waiting : ParseProtocolStatus → Bool
is_waiting success = false
is_waiting error = false
is_waiting no_enough_data = true
is_waiting try_another_protocol = false
is_waiting part_success = false

-- Each piece is read from the socket, and the parser is called, as long as it lacks data.
unfoldable pub receive : HttpContext → Buffer → List Bytes → Run HttpParsed
receive c b [] = answer no_enough_data c b
receive c b (piece ∷ pieces) = read_fd b (came piece) >>= λ r. parse_request c r.buffer >>= λ p.
    elim (is_waiting p.status) [ true ↦ receive p.context p.rest pieces | false ↦ returns p ]

module _ (c : HttpContext) (b : Buffer) (piece : Bytes) (pieces : List Bytes) (r : Received)
    (p : HttpParsed) (reads : read_fd b (came piece) ≡ returns r)
    (parses : parse_request c r.buffer ≡ returns p) where
  receive_waits :
      p.status ≡ no_enough_data → receive c b (piece ∷ pieces) ≡ receive p.context p.rest pieces
  unfolding receive is_waiting
  receive_waits waits = rw reads (
      rw parses (
        ap
          (λ st. elim (is_waiting st) as (λ x. Run HttpParsed) [
            | true ↦ receive p.context p.rest pieces
            | false ↦ returns p
          ])
          waits))

  receive_ends : p.status ≡ success → receive c b (piece ∷ pieces) ≡ returns p
  unfolding receive is_waiting
  receive_ends over = rw reads (
      rw parses (
        ap
          (λ st. elim (is_waiting st) as (λ x. Run HttpParsed) [
            | true ↦ receive p.context p.rest pieces
            | false ↦ returns p
          ])
          over))

-- What has been received is the call.
abbrev pub Receives : Context → ConnType → Run HttpParsed → Type 0
Receives to before run =
    (p : HttpParsed) × (run ≡ returns p)
    × (p.status ≡ success)
    × IsRead to before p
    × Holds p.rest to.payload

module _ (to : Context) (before : ConnType) (s : IsSendable to) where
  receive_rest :
      (pieces : List Bytes) {c : HttpContext} {text : Bytes} {b : Buffer} {live : Bytes}
      → Unread to before c text
      → Holds b live
      → live ++ join pieces ≡ text
      → join pieces ≢ []
      → All (λ piece. piece ≢ []) pieces
      → b.windex + length (join pieces) ≤ length b.storage
      → Receives to before (receive c b pieces)
  receive_rest [] place h e some_more each room = absurd (some_more refl)
  receive_rest (piece ∷ pieces) {c} {text} {b} {live} place h e some_more each room =
      let total = length-append piece (join pieces) in
      let (r, reads, h', moved, same) = read_fd_roomy piece h each.0 (omega (arith, room, total)) in
      let cut : (live ++ piece) ++ join pieces ≡ text = append_assoc live piece (join pieces) ∙ e in
      let (p, parses, (storage, windex), live', h2, result) =
        parse_request-Progress to before (join pieces) s place h' cut in
      elim result [
        | inl (waits, more, text', place', cut') ↦
            let space : p.rest.windex + length (join pieces) ≤ length p.rest.storage =
              omega (arith, windex, moved, ap length storage, same, room, total) in
            let (q, rest, status, read, all) =
              receive_rest pieces place' h2 cut' more each.1 space in
            (q, receive_waits c b piece pieces r p reads parses waits ∙ rest, status, read, all)
        | inr (status, over, read, all) ↦ (
          p,
          receive_ends c b piece pieces r p reads parses status,
          status,
          read,
          subst (Holds p.rest) all h2,
        )
      ]

-- The whole text at once.
parse_whole :
    (to : Context) (before : ConnType) {c : HttpContext} {text live : Bytes} {b : Buffer}
    → IsSendable to
    → Unread to before c text
    → Holds b live
    → live ≡ text
    → Receives to before (parse_request c b)
parse_whole to before {live = live} s place h e =
    let (p, parses, _, live', h', result) =
      parse_request-Progress to before [] s place h (append-nil live ∙ e) in
    elim result [
      | inl (waits, more, text', place', cut) ↦ absurd (more refl)
      | inr (status, over, read, all) ↦ (p, parses, status, read, subst (Holds p.rest) all h')
    ]

-- What a caller sees of a parser's run: the status, the service, the method, the connection type and the
-- payload that is taken from the view.
unfoldable pub seen : Run HttpParsed → Run (ParseProtocolStatus × Bytes × Bytes × ConnType × Bytes)
seen run = do
  p ← run
  payload ← view_str p.context.base.payload_view p.rest
  returns
      (p.status, p.context.base.service, p.context.base.method, p.context.base.conn_type, payload)

seen-Receives :
    (to : Context) (before : ConnType) (run : Run HttpParsed)
    → Receives to before run
    → seen run ≡ returns (success, to.service, to.method, kept_type to.conn_type before, to.payload)
unfolding seen
seen-Receives to before run (p, e, status, (service, method, kind, payload), h) =
    rw (e, payload, status, service, method, kind) refl

-- A sendable call is sent over HTTP, and its text is cut into pieces that are not empty, wherever the network
-- likes. Each piece is read from the socket into a buffer that held nothing and that has room for the
-- whole text behind its write index, and the parser runs after each, from a context before its first line
-- that has no headers. Then the caller sees the same as from one run of the parser on a buffer that holds
-- the whole text: success, the call's service, method and payload, and the single connection type for
-- every type but short, which leaves the type as it was.
pub receive-parse_request :
    (to : Context) (c : HttpContext) (pieces : List Bytes) {b r : Buffer}
    → IsSendable to
    → Holds b []
    → join pieces ≡ line (request_line to) (headers to to.payload)
    → All (λ piece. piece ≢ []) pieces
    → b.windex + length (join pieces) ≤ length b.storage
    → Holds r (join pieces)
    → (seen (receive (before_line c) b pieces) ≡ seen (parse_request (before_line c) r))
      × (seen (parse_request (before_line c) r)
          ≡ returns
              (success, to.service, to.method, kept_type to.conn_type c.base.conn_type, to.payload))
receive-parse_request to c pieces {b} {r} s h e each room arrived =
    let before = c.base.conn_type in
    let size = length-append (request_line to) (b'\r' ∷ b'\n' ∷ headers to to.payload) in
    let some_more : join pieces ≢ [] = λ n. omega (arith, ap length n, ap length e, size) in
    let cut = receive_rest to before s pieces (at_line c refl) h e some_more each room in
    let whole = parse_whole to before s (at_line c refl) arrived e in
    let one = seen-Receives to before _ whole in (seen-Receives to before _ cut ∙ sym one, one)
