-- ===== src/Http/Resume.antt =====
-- `parse_request` of HTTP on a request of which more is still to come.
use small_rpc.Prelude.{
  ℕ, suc, ◌+◌, ◌^◌, ◌≤◌, ◌<◌, ◌≡◌, ◌≢◌, ◌⊎◌, inl, inr, refl, ap, sym, subst, Bool-cases, ltb,
  lt→ltb, ◌∙◌, arith, true, [], ◌++◌, append-nil, Bytes, length, length-append, length_eq_zero, pos,
  ltb_ℤ, int_of_small, Run, returns,
}
use small_rpc.Buffer.{Buffer, view_at, view_str}
use small_rpc.Buffer.Contents.{Holds, readable-Holds}
use small_rpc.Http.{parse_body, run_stage, next_stage, stages, parse_request}
use small_rpc.Http.FirstLine.{with_request, request_line_plain, parse_request_line_found}
use small_rpc.Http.Found.{Moved}
use small_rpc.Http.Line.{parse_request_line}
use small_rpc.Http.Pieces.{
  InHeaders, at_connection, at_type, at_length, at_end, parse_headers_loops, short_todo, long_rest,
}
use small_rpc.Http.RoundTrip.{before_line, view_at-Holds, parse_body_found}
use small_rpc.Http.Short.{with_line_short}
use small_rpc.Http.Stages.{
  run_stage-headers, run_stage-body, run_stage-over, stages_part, stages_wait, stages_over,
}
use small_rpc.Http.State.{HttpContext, HttpParsed, answer}
use small_rpc.Http.Stored.{kept_type, with_headers}
use small_rpc.Http.Wire.{line, request_line, headers, IsSendable}
use small_rpc.Protocol.{Context, ConnType, no_enough_data, success}

-- The headers of a call are read, and the body is next.
abbrev pub IsReady : Context → ConnType → HttpContext → Type 0
IsReady to before c =
    (c.base.service ≡ to.service)
    × (c.base.method ≡ to.method)
    × (c.base.conn_type ≡ kept_type to.conn_type before)
    × (c.body_size ≡ pos (length to.payload))
    × (c.stage ≡ 2)

-- A context, and what of a call's text is still unread.
pub data Unread (to : Context) (before : ConnType) : HttpContext → Bytes → Type 0 where
  at_line :
      (c : HttpContext)
      → c.base.conn_type ≡ before
      → Unread to before (before_line c) (line (request_line to) (headers to to.payload))
  in_headers :
      {c : HttpContext} {text : Bytes} → InHeaders to before c text → Unread to before c text
  at_body : {c : HttpContext} → IsReady to before c → Unread to before c to.payload

-- The call is read: its payload is in view, and still in the queue.
abbrev pub IsRead : Context → ConnType → HttpParsed → Type 0
IsRead to before p =
    (p.context.base.service ≡ to.service)
    × (p.context.base.method ≡ to.method)
    × (p.context.base.conn_type ≡ kept_type to.conn_type before)
    × (view_str p.context.base.payload_view p.rest ≡ returns to.payload)

-- A run of the parser waits for `todo` exactly as long as there is something to come, and has then read
-- the call.
abbrev pub Progress : Context → ConnType → Bytes → Buffer → Run HttpParsed → Type 0
Progress to before todo b run =
    (p : HttpParsed) × (run ≡ returns p)
    × Moved b p.rest
    × (live : Bytes) × Holds p.rest live
    × (((p.status ≡ no_enough_data)
          × (todo ≢ [])
          × (text : Bytes) × Unread to before p.context text
          × (live ++ todo ≡ text))
        ⊎ ((p.status ≡ success) × (todo ≡ []) × IsRead to before p × (live ≡ to.payload)))

parse_body_short :
    (c : HttpContext) {b : Buffer} {live : Bytes} (n : ℕ)
    → c.body_size ≡ pos n
    → length live < n
    → length live < 2 ^ 31
    → Holds b live
    → parse_body c b ≡ answer no_enough_data c b
unfolding parse_body
parse_body_short c {b} {live} n size short few h =
    let missing : ltb_ℤ (pos (length live)) (pos n) ≡ true = lt→ltb (length live) n short in
    rw (size, readable-Holds h, int_of_small (length live) few, missing) refl

InHeaders-stage :
    {to : Context} {before : ConnType} {c : HttpContext} {text : Bytes}
    → InHeaders to before c text
    → c.stage ≡ 1
InHeaders-stage (at_connection c named) = named.3
InHeaders-stage (at_type c named) = named.3
InHeaders-stage (at_length c named) = named.3
InHeaders-stage (at_end c named) = named.3

module _ (to : Context) (before : ConnType) (todo : Bytes) where
  Progress-back :
      (b b' : Buffer) {run run' : Run HttpParsed}
      → Moved b b'
      → run ≡ run'
      → Progress to before todo b' run'
      → Progress to before todo b run
  Progress-back b b' (m0, m1) e (p, r, (k0, k1), live, h, more) =
      (p, e ∙ r, (k0 ∙ m0, k1 ∙ m1), live, h, more)

  module _ (first_line : HttpContext → Buffer → Run HttpParsed) (small : length to.payload < 2 ^ 31)
      (fuel : ℕ) where
    body-Progress :
        (c : HttpContext) {b : Buffer} {live : Bytes}
        → IsReady to before c
        → Holds b live
        → live ++ todo ≡ to.payload
        → Progress to before todo b (stages first_line (suc (suc fuel)) c b)
    body-Progress c {b} {live} (service, method, kind, size, stage) h e =
        let total = length-append live todo in
        elim (Bool-cases (ltb (length live) (length to.payload))) [
          | inl cut ↦
              let short : length live < length to.payload = ground (arith, cut) in
              let some_more : todo ≢ [] =
                λ n. omega (arith, ap length n, ap length e, total, short) in
              let waits =
                run_stage-body first_line c b stage
                ∙ parse_body_short c (length to.payload) size short (omega (arith, short)) h in
              (
                record { status = no_enough_data; context = c; rest = b },
                stages_wait first_line c b (suc fuel) waits,
                (refl, refl),
                live,
                h,
                inl (refl, some_more, to.payload, at_body (service, method, kind, size, stage), e),
              )
          | inr whole ↦
              let all : length to.payload ≤ length live = ground (arith, whole) in
              let over : todo ≡ [] = length_eq_zero todo (omega (arith, ap length e, total)) in
              let same : live ≡ to.payload =
                sym (append-nil live) ∙ ap (λ t. live ++ t) (sym over) ∙ e in
              let h' : Holds b (to.payload ++ []) =
                subst (Holds b) (same ∙ sym (append-nil to.payload)) h in
              let few : length (to.payload ++ []) < 2 ^ 31 =
                omega (arith, ap length (append-nil to.payload)) in
              let viewed : HttpContext = record c {
                base = record c.base { payload_view = view_at b.rindex (length to.payload) };
                stage = suc c.stage;
              } in
              let reads = stages_part first_line c b (suc fuel) (
                run_stage-body first_line c b stage
                ∙ parse_body_found c to.payload [] size few h') in
              let ends = run_stage-over first_line viewed b (ap suc stage) in
              (
                record { status = success; context = viewed; rest = b },
                reads ∙ stages_over first_line viewed b fuel ends,
                (refl, refl),
                live,
                h,
                inr (
                  refl,
                  over,
                  (service, method, kind, view_at-Holds to.payload [] h' refl),
                  same,
                ),
              )
        ]

    headers-Progress :
        (c : HttpContext) {text : Bytes} {b : Buffer} {live : Bytes}
        → InHeaders to before c text
        → Holds b live
        → live ++ todo ≡ text
        → Progress to before todo b (stages first_line (suc (suc (suc fuel))) c b)
    headers-Progress c {b = b} place h e =
        let (b', c', live', h', moved, result) =
          parse_headers_loops to before todo place small h e in
        elim result [
          | inl (run, more, text, still, cut) ↦
              let waits = run_stage-headers first_line c b (InHeaders-stage place) ∙ run in
              (
                record { status = no_enough_data; context = c'; rest = b' },
                stages_wait first_line c b (suc (suc fuel)) waits,
                moved,
                live',
                h',
                inl (refl, more, text, in_headers still, cut),
              )
          | inr (run, (service, method, kind, stage), cut) ↦
              let goes_on =
                stages_part first_line c b (suc (suc fuel))
                  (run_stage-headers first_line c b (InHeaders-stage place) ∙ run) in
              let ready : IsReady to before (next_stage (with_headers to c')) =
                (service, method, ap (kept_type to.conn_type) kind, refl, ap suc stage) in
              Progress-back b b' moved goes_on
                (body-Progress (next_stage (with_headers to c')) ready h' cut)
        ]

  line-Progress :
      (c : HttpContext) {b : Buffer} {live : Bytes}
      → IsSendable to
      → c.base.conn_type ≡ before
      → Holds b live
      → live ++ todo ≡ line (request_line to) (headers to to.payload)
      → Progress to before todo b (parse_request (before_line c) b)
  unfolding parse_request run_stage headers
  line-Progress c {b} {live} s kind h e =
      let (size, lacks) = request_line_plain to s in
      let text : Bytes = headers to to.payload in
      elim (Bool-cases (ltb (length live) (length (request_line to) + 2))) [
        | inl cut ↦
            let short : length live < length (request_line to) + 2 = ground (arith, cut) in
            (
              record { status = no_enough_data; context = before_line c; rest = b },
              stages_wait parse_request_line (before_line c) b 3 (
                  unfold parse_request_line in
                  with_line_short todo (request_line to) text (before_line c) _ h e short
                    (omega (arith, size, s.line_fits)) lacks),
              (refl, refl),
              live,
              h,
              inl (refl, short_todo live todo (request_line to) text e short, _, at_line c kind, e),
            )
        | inr whole ↦
            let long : length (request_line to) + 2 ≤ length live = ground (arith, whole) in
            let (more, start, tail) = long_rest live todo (request_line to) text e long in
            let (b', run, h', moved) =
              parse_request_line_found to more (before_line c) s (subst (Holds b) start h) in
            let named : HttpContext =
              record (with_request to.service to.method b.rindex (before_line c)) { stage = 1 } in
            Progress-back b b' moved (stages_part parse_request_line (before_line c) b 3 run) (
              headers-Progress parse_request_line s.payload_fits 0 named
                (at_connection named (refl, refl, kind, refl)) h' tail)
      ]

-- Let the context of a parser stand in the text of a sendable call, and the queue hold the next of its
-- unread bytes, with `todo` still to come. Then the parser returns, with the storage and the write
-- index as they were. As long as there is something to come it lacks data, and stands in the text again,
-- before the rest of the queue and `todo`; else it succeeds with the call's service, method and payload.
pub parse_request-Progress :
    (to : Context) (before : ConnType) (todo : Bytes) {c : HttpContext} {text : Bytes} {b : Buffer}
    {live : Bytes}
    → IsSendable to
    → Unread to before c text
    → Holds b live
    → live ++ todo ≡ text
    → Progress to before todo b (parse_request c b)
unfolding parse_request
parse_request-Progress to before todo s (at_line c kind) h e =
    line-Progress to before todo c s kind h e
parse_request-Progress to before todo {c = c} s (in_headers place) h e =
    headers-Progress to before todo parse_request_line s.payload_fits 1 c place h e
parse_request-Progress to before todo {c = c} s (at_body ready) h e =
    body-Progress to before todo parse_request_line s.payload_fits 2 c ready h e
