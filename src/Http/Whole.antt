-- ===== src/Http/Whole.antt =====
-- The parsers of HTTP as a whole.
use small_rpc.Prelude.{
  ℕ, zero, suc, ◌+◌, ◌-◌, ◌≤◌, ◌≡◌, ◌≢◌, inl, inr, [], ◌∷◌, List, arith, ◌==◌, Bytes, length, drop,
  sub64, some, Option-cases, Bool-cases, Run, returns, fault, out_of_fuel, ltb_ℤ, int_of, refl,
}
use small_rpc.Buffer.{Buffer, readable, read_range, mem_chr}
use small_rpc.Buffer.Contents.{Holds}
use small_rpc.Http.Ends.{
  Ends, Ends->>=, if-Ends, total-Ends, read_range-Ends, Leaves, KeepsStage, retrieve-drop,
  with_line-Ends, parse_headers-Ends,
}
use small_rpc.Http.Line.{
  max_headline_size, byte_at, find_from, parse_version, split_url, take_url, parse_url,
  parse_target, parse_method, parse_request_line, parse_response_line,
}
use small_rpc.Http.State.{HttpContext, HttpParsed, find_method, match_method}
use small_rpc.Http.Text.{starts_with}
use small_rpc.Http.Header.{parse_headers}
use small_rpc.Http.{parse_body, run_stage, next_stage, stages, parse_request, parse_response}
use small_rpc.Protocol.{
  ParseProtocolStatus, success, error, no_enough_data, try_another_protocol, part_success,
}
use small_rpc.Simple.Rounds.{mem_chr_total}

abbrev Any : {A : Type 0} → A → Type 0
Any a = Unit

byte_at-Ends : (b : Buffer) (offset : ℕ) → Ends Any (byte_at b offset)
unfolding byte_at
byte_at-Ends b offset =
    Ends->>= Any Any (read_range b.storage (b.rindex + offset) 1) _
      (read_range-Ends b.storage (b.rindex + offset) 1) λ one _. tt

find_from-Ends : (b : Buffer) (x offset count : ℕ) → Ends Any (find_from b x offset count)
unfolding find_from
find_from-Ends b x offset count =
    Ends->>= Any Any (mem_chr b.storage (b.rindex + offset) x count) _
      (total-Ends _ (mem_chr_total b.storage (b.rindex + offset) x count)) λ hit _. tt

split_url-Ends :
    (c : HttpContext) (b : Buffer) (offset space : ℕ)
    → Ends (KeepsStage c) (split_url c b offset space)
unfolding split_url
split_url-Ends c b offset space =
    Ends->>= Any (KeepsStage c) (find_from b b'/' (offset + 1) (sub64 space offset)) _
      (find_from-Ends b b'/' (offset + 1) (sub64 space offset))
      λ slash _. elim (Option-cases slash) [
        | inl missed ↦ rw missed refl
        | inr (at, hit) ↦ rw hit (
            Ends->>= Any (KeepsStage c)
              (read_range b.storage (b.rindex + offset + 1) (at - offset - 1)) _
              (read_range-Ends b.storage (b.rindex + offset + 1) (at - offset - 1))
              λ service _.
                Ends->>= Any (KeepsStage c)
                  (read_range b.storage (b.rindex + at + 1) (space - at - 1)) _
                  (read_range-Ends b.storage (b.rindex + at + 1) (space - at - 1)) λ method _. refl)
      ]

-- A line of `n` bytes and its end are in the queue.
module _ {b : Buffer} {live : Bytes} (h : Holds b live) (n : ℕ) (within : n + 2 ≤ length live) where
  parse_version-Ends :
      (stage : ℕ) (c : HttpContext) (offset : ℕ)
      → c.stage ≡ stage
      → Ends (Leaves stage) (parse_version c b n offset)
  unfolding parse_version
  parse_version-Ends stage c offset e =
      Ends->>= Any (Leaves stage) (find_from b b' ' offset (sub64 n offset)) _
        (find_from-Ends b b' ' offset (sub64 n offset))
        λ third _. elim (Option-cases third) [
          | inl missed ↦ rw missed (e, drop (n + 2) live, retrieve-drop (n + 2) h within)
          | inr (i, hit) ↦ rw hit (e, live, h)
        ]

  take_url-Ends :
      (c : HttpContext) (offset space : ℕ) → Ends (Leaves c.stage) (take_url c b n offset space)
  unfolding take_url
  take_url-Ends c offset space =
      if-Ends (Leaves c.stage) (space == offset) _ _ (refl, live, h)
        (Ends->>= Any (Leaves c.stage) (byte_at b offset) _ (byte_at-Ends b offset) λ first _.
          elim (Bool-cases (first == b'/')) [
            | inl slash ↦ rw slash (
                Ends->>= (KeepsStage c) (Leaves c.stage) _ _ (split_url-Ends _ b offset space)
                  λ named kept. parse_version-Ends c.stage named (space + 1) kept)
            | inr other ↦ rw other (refl, live, h)
          ])

  parse_url-Ends : (c : HttpContext) (offset : ℕ) → Ends (Leaves c.stage) (parse_url c b n offset)
  unfolding parse_url
  parse_url-Ends c offset =
      Ends->>= Any (Leaves c.stage) (find_from b b' ' offset (sub64 n offset)) _
        (find_from-Ends b b' ' offset (sub64 n offset))
        λ space _. elim (Option-cases space) [
          | inl missed ↦ rw missed (refl, live, h)
          | inr (at, hit) ↦ rw hit (take_url-Ends c offset at)
        ]

  parse_target-Ends :
      (c : HttpContext) (offset : ℕ) → Ends (Leaves c.stage) (parse_target c b n offset)
  unfolding parse_target
  parse_target-Ends c offset =
      Ends->>= Any (Leaves c.stage) (byte_at b offset) _ (byte_at-Ends b offset) λ blank _.
        if-Ends (Leaves c.stage) (blank == b' ') _ _ (parse_url-Ends c (offset + 1)) (refl, live, h)

starts_with-Ends : (mem literal : Bytes) → Ends Any (starts_with mem literal)
unfolding starts_with
starts_with-Ends mem [] = tt
starts_with-Ends [] (y ∷ literal) = tt
starts_with-Ends (x ∷ mem) (y ∷ literal) =
    if-Ends Any (x == y) _ _ (starts_with-Ends mem literal) tt

find_method-Ends : (i : ℕ) (names : List Bytes) (mem : Bytes) → Ends Any (find_method i names mem)
unfolding find_method
find_method-Ends i [] mem = tt
find_method-Ends i (name ∷ names) mem =
    Ends->>= Any Any (starts_with mem name) _ (starts_with-Ends mem name) λ here _.
      elim (Bool-cases here) [
        | inl hit ↦ rw hit tt
        | inr miss ↦ rw miss (find_method-Ends (suc i) names mem)
      ]

abbrev LineEnds : (HttpContext → Buffer → Run HttpParsed) → Type 0
LineEnds first_line =
    (c : HttpContext) (b : Buffer) (live : Bytes)
    → Holds b live
    → Ends (Leaves c.stage) (first_line c b)

parse_method-Ends :
    (c : HttpContext) {b : Buffer} {live : Bytes} (h : Holds b live) (n : ℕ)
    → n + 2 ≤ length live
    → Ends (Leaves c.stage) (parse_method c b n)
unfolding parse_method match_method
parse_method-Ends c {b} {live} h n within =
    Ends->>= Any (Leaves c.stage) _ _ (find_method-Ends 0 _ (drop b.rindex b.storage)) λ hit _.
      elim (Option-cases hit) [
        | inl none_of_them ↦ rw none_of_them (elim (Option-cases c.http_method) [
          | inl fresh ↦ rw fresh (refl, live, h)
          | inr (i, old) ↦ rw old (parse_target-Ends h n within c 0)
        ])
        | inr ((i, name), found) ↦
            rw found
              (parse_target-Ends h n within (record c { http_method = some i }) (length name))
      ]

parse_request_line-Ends : LineEnds parse_request_line
unfolding parse_request_line
parse_request_line-Ends c b live h =
    with_line-Ends (Leaves c.stage) max_headline_size c (parse_method c b) h (λ st. (refl, live, h))
      (parse_method-Ends c h)

parse_response_line-Ends : LineEnds parse_response_line
unfolding parse_response_line
parse_response_line-Ends c b live h =
    with_line-Ends (Leaves c.stage) max_headline_size c _ h (λ st. (refl, live, h))
      λ n within. (refl, drop (n + 2) live, retrieve-drop (n + 2) h within)

parse_body-Ends : LineEnds parse_body
unfolding parse_body
parse_body-Ends c b live h =
    if-Ends (Leaves c.stage) (ltb_ℤ (int_of (readable b)) c.body_size) _ _ (refl, live, h)
      (refl, live, h)

-- A part that succeeds belongs to one of the stages 0, 1 and 2.
abbrev Steps : ℕ → HttpParsed → Type 0
Steps stage p = Leaves stage p × (p.status ≡ part_success → stage ≤ 2)

Ends-weaken {ℓ} :
    {A : Type ℓ} (P Q : A → Type 0) (m : Run A) → Ends P m → ((a : A) → P a → Q a) → Ends Q m
Ends-weaken P Q (returns a) ends weaker = weaker a ends
Ends-weaken P Q fault ends weaker = tt
Ends-weaken P Q out_of_fuel ends weaker = absurd ends

Ends-Steps :
    (stage : ℕ) (m : Run HttpParsed) → stage ≤ 2 → Ends (Leaves stage) m → Ends (Steps stage) m
Ends-Steps stage m early ends =
    Ends-weaken (Leaves stage) (Steps stage) m ends λ p leaves. (leaves, λ _. early)

-- What the loop leaves when it began at `stage`: a status that the caller can act on, a stage that is not an
-- earlier one, and a buffer with a queue in it.
abbrev pub Settles : ℕ → HttpParsed → Type 0
Settles stage p =
    (p.status ≢ part_success) × (stage ≤ p.context.stage) × (live : Bytes) × Holds p.rest live

settle :
    (stage : ℕ) (st : ParseProtocolStatus) (p : HttpParsed) (again : Run HttpParsed)
    → p.status ≡ st
    → stage ≤ p.context.stage
    → (live : Bytes) × Holds p.rest live
    → (st ≡ part_success → Ends (Settles stage) again)
    → Ends (Settles stage) (elim st [
      | part_success ↦ again
      | success ↦ returns p
      | error ↦ returns p
      | no_enough_data ↦ returns p
      | try_another_protocol ↦ returns p
    ])
settle stage part_success p again e on holds next = next refl
settle stage success p again e on (live, h) next = (λ part. cc, on, live, h)
settle stage error p again e on (live, h) next = (λ part. cc, on, live, h)
settle stage no_enough_data p again e on (live, h) next = (λ part. cc, on, live, h)
settle stage try_another_protocol p again e on (live, h) next = (λ part. cc, on, live, h)

module _ (first_line : HttpContext → Buffer → Run HttpParsed) (line : LineEnds first_line) where
  run_stage-Ends :
      (c : HttpContext) (b : Buffer) (live : Bytes)
      → Holds b live
      → Ends (Steps c.stage) (run_stage first_line c b)
  unfolding run_stage
  run_stage-Ends c b live h = elim (Bool-cases (c.stage == 0)) [
    | inl at_line ↦
        rw at_line (Ends-Steps c.stage (first_line c b) (ground (arith, at_line)) (line c b live h))
    | inr past_line ↦ rw past_line (elim (Bool-cases (c.stage == 1)) [
      | inl at_headers ↦ rw at_headers (
          Ends-Steps c.stage (parse_headers c b) (ground (arith, at_headers))
            (parse_headers-Ends c h))
      | inr past_headers ↦ rw past_headers (elim (Bool-cases (c.stage == 2)) [
        | inl at_body ↦ rw at_body (
            Ends-Steps c.stage (parse_body c b) (ground (arith, at_body))
              (parse_body-Ends c b live h))
        | inr over ↦ rw over ((refl, live, h), λ e. cc)
      ])
    ])
  ]

  stages-Ends :
      (fuel : ℕ) (c : HttpContext) (b : Buffer) (live : Bytes)
      → Holds b live
      → 1 ≤ fuel
      → 4 ≤ fuel + c.stage
      → Ends (Settles c.stage) (stages first_line fuel c b)
  unfolding stages
  stages-Ends zero c b live h some_fuel enough = absurd (omega arith)
  stages-Ends (suc fuel) c b live h some_fuel enough =
      Ends->>= (Steps c.stage) (Settles c.stage) (run_stage first_line c b) _
        (run_stage-Ends c b live h)
        λ p ((same, live', h'), early).
          settle c.stage p.status p _ refl (omega (arith, same)) (live', h')
            λ part.
              Ends-weaken (Settles (next_stage p.context).stage) (Settles c.stage) _
                (stages-Ends fuel (next_stage p.context) p.rest live' h'
                  (omega (arith, early part, enough)) (omega (arith, same, early part, enough)))
                λ q (final, on, left, holds). (final, omega (arith, same, on), left, holds)

-- Whatever bytes a buffer holds and at whatever stage the context is, the loops of `parse_request` end, be it
-- by a fault: an exception or a read outside the buffer. Where it answers, the answer is never
-- `ParseProtocol_PartSuccess`, the context is at no earlier stage, and the buffer is left with a queue
-- of bytes, so that the parser can be called on it again.
pub parse_request-Settles :
    (c : HttpContext) (b : Buffer) (live : Bytes)
    → Holds b live
    → Ends (Settles c.stage) (parse_request c b)
unfolding parse_request
parse_request-Settles c b live h =
    stages-Ends parse_request_line parse_request_line-Ends 4 c b live h (omega arith) (omega arith)

-- The same for `parse_response`.
pub parse_response-Settles :
    (c : HttpContext) (b : Buffer) (live : Bytes)
    → Holds b live
    → Ends (Settles c.stage) (parse_response c b)
unfolding parse_response
parse_response-Settles c b live h =
    stages-Ends parse_response_line parse_response_line-Ends 4 c b live h (omega arith)
      (omega arith)
