-- ===== src/Http/Endless.antt =====
-- A first line whose end does not come.
use small_rpc.Prelude.{
  ℕ, ◌≡◌, ◌≢◌, ◌⊎◌, ◌∙◌, refl, sym, subst, Bytes, length, length-take, take-append-drop, take, drop,
  min, none, some, Run, returns, Option-cases, Bool-cases, inl, inr, arith, ◌==◌, ltb, suc,
  if◌then◌else◌, ne→==, ==_iff, ltb→lt, ltb→le,
}
use small_rpc.Buffer.{Buffer, readable, read_range, find_pair, find_crlf}
use small_rpc.Buffer.Contents.{Holds, readable-Holds, read_range-Holds}
use small_rpc.Http.Ends.{Ends}
use small_rpc.Http.Line.{max_headline_size, with_line, parse_request_line, parse_method}
use small_rpc.Http.Stages.{run_stage-first, stages_wait}
use small_rpc.Http.State.{answer, HttpContext, HttpParsed}
use small_rpc.Http.Whole.{Settles, parse_request-Settles}
use small_rpc.Http.{run_stage, stages, parse_request}
use small_rpc.Protocol.{ParseProtocolStatus, error, no_enough_data}

-- The verdict on a queue without the end of a line.
abbrev pub verdict : Bytes → ParseProtocolStatus
verdict live = if ltb (length live) 65536 then no_enough_data else error

with_line_endless :
    {b : Buffer} {live : Bytes} (c : HttpContext) (found : ℕ → Run HttpParsed)
    → Holds b live
    → find_pair (take 65536 live) ≡ none
    → with_line max_headline_size c b found ≡ answer (verdict live) c b
unfolding with_line find_crlf
with_line_endless {b} {live} c found h lacks =
    let xs = take 65536 live in
    let long = length-take 65536 live in
    let size : min (readable b) 65536 ≡ length xs = omega (arith, readable-Holds h, long) in
    let all : read_range b.storage b.rindex (length xs) ≡ returns xs =
      read_range-Holds {b = b} xs (drop 65536 live)
        (subst (Holds b) (sym (take-append-drop 65536 live)) h) refl in
    elim (Bool-cases (length xs == 0)) [
      | inl empty ↦ elim (Bool-cases (ltb (length live) 65536)) [
        | inl few ↦ rw (size, empty, few) refl
        | inr many ↦
            absurd
              (omega (arith, (==_iff (length xs) 0).0 empty, ltb→le (length live) 65536 many, long))
      ]
      | inr more ↦ elim (Bool-cases (ltb (length live) 65536)) [
        | inl few ↦
            let part : length xs ≢ 65536 = omega (arith, ltb→lt (length live) 65536 few, long) in
            rw (size, more) (rw (all, lacks) (rw (size, ne→== (length xs) 65536 part, few) refl))
        | inr many ↦
            let full : length xs ≡ 65536 = omega (arith, ltb→le (length live) 65536 many, long) in
            rw (size, more) (rw (all, lacks) (rw (size, full, many) refl))
      ]
    ]

stages_error :
    (first_line : HttpContext → Buffer → Run HttpParsed) (fuel : ℕ) (c c' : HttpContext)
    (b b' : Buffer)
    → run_stage first_line c b ≡ answer error c' b'
    → stages first_line (suc fuel) c b ≡ answer error c' b'
unfolding stages
stages_error first_line fuel c c' b b' e = rw e refl

parse_request_endless :
    (c : HttpContext) {b : Buffer} {live : Bytes}
    → Holds b live
    → c.stage ≡ 0
    → find_pair (take 65536 live) ≡ none
    → parse_request c b ≡ answer (verdict live) c b
unfolding parse_request parse_request_line
parse_request_endless c {b} {live} h first lacks =
    let line : run_stage parse_request_line c b ≡ answer (verdict live) c b =
      run_stage-first parse_request_line c b first
      ∙ with_line_endless c (parse_method c b) h lacks in
    elim (Bool-cases (ltb (length live) 65536)) [
      | inl few ↦ rw few (stages_wait parse_request_line c b 3 (rw few at line))
      | inr many ↦ rw many (stages_error parse_request_line 3 c c b b (rw many at line))
    ]

-- The first line was read already, or its end is among the first 65536 bytes of the queue.
abbrev pub HasLine : HttpContext → Bytes → Type 0
HasLine c live = (c.stage ≢ 0) ⊎ ((n : ℕ) × (find_pair (take 65536 live) ≡ some n))

-- Whatever bytes a buffer holds and at whatever stage the context is, the loops of `parse_request` end, be it
-- by a fault: an exception or a read outside the buffer. Where it answers, the answer is never
-- `ParseProtocol_PartSuccess`, the context is at no earlier stage, and the buffer is left with a queue
-- of bytes, so that the parser can be called on it again. Before the first line was read, as long as
-- its end is not among the first 65536 bytes, it does not fault: it lacks data while there are fewer
-- bytes than that, and then ends in an error, and changes neither the context nor the buffer.
pub parse_request-HasLine :
    (c : HttpContext) (b : Buffer) (live : Bytes)
    → Holds b live
    → Ends (Settles c.stage) (parse_request c b)
      × (HasLine c live
          ⊎ (parse_request c b
              ≡ answer (if ltb (length live) 65536 then no_enough_data else error) c b))
parse_request-HasLine c b live h = (
  parse_request-Settles c b live h,
  elim (Bool-cases (c.stage == 0)) [
    | inl first ↦ elim (Option-cases (find_pair (take 65536 live))) [
      | inl lacks ↦ inr (parse_request_endless c h ((==_iff c.stage 0).0 first) lacks)
      | inr (n, found) ↦ inl (inr (n, found))
    ]
    | inr past ↦ inl (inl (ground (arith, past)))
  ],
)
