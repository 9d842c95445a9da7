-- ===== src/Http/Ends.antt =====
-- The loop over the header lines of `_parse_headers` ends.
use small_rpc.Prelude.{
  ℕ, ℤ, Bool, Option, none, zero, suc, ◌+◌, ◌≤◌, ◌<◌, ◌≡◌, ◌≢◌, inl, inr, [], ◌∷◌, arith, ◌==◌,
  Bytes, length, take, drop, length-take, length-drop, take-append-drop, some, Option-cases,
  Bool-cases, Run, returns, fault, out_of_fuel, ◌>>=◌, ◌∙◌, ◌-◌, ◌||◌, true, false, codes,
  if◌then◌else◌, min, leb, subst, sym, refl,
}
use small_rpc.Buffer.{Buffer, readable, retrieve, read_range, find_pair, find_crlf, mem_chr}
use small_rpc.Buffer.Contents.{Holds, readable-Holds, retrieve-Holds}
use small_rpc.Http.State.{HttpContext, HttpParsed}
use small_rpc.Http.Header.{
  max_header_size, set_body_size, apply_header, store_header, has_header, cut_header, headers_loop,
  parse_headers,
}
use small_rpc.Http.Line.{with_line}
use small_rpc.Http.Text.{trim, is_empty, stoi, same_bytes}
use small_rpc.Protocol.{ParseProtocolStatus, no_enough_data}
use small_rpc.Simple.Rounds.{mem_chr_total}

-- A run that did not run out of fuel, and whose result is as `P` says.
abbrev pub Ends {ℓ} : {A : Type ℓ} → (A → Type 0) → Run A → Type 0
Ends P (returns a) = P a
Ends P fault = Unit
Ends P out_of_fuel = ⊥

pub Ends->>= {ℓ κ} :
    {A : Type ℓ} {B : Type κ} (P : A → Type 0) (Q : B → Type 0) (m : Run A) (f : A → Run B)
    → Ends P m
    → ((a : A) → P a → Ends Q (f a))
    → Ends Q (m >>= f)
Ends->>= P Q (returns a) f first rest = rest a first
Ends->>= P Q fault f first rest = tt
Ends->>= P Q out_of_fuel f first rest = absurd first

pub total-Ends {ℓ} : {A : Type ℓ} (m : Run A) → m ≢ out_of_fuel → Ends (λ (a : A). Unit) m
total-Ends (returns a) total = tt
total-Ends fault total = tt
total-Ends out_of_fuel total = absurd (total refl)

-- A result that leaves the stage to the loop, and a buffer with a queue in it.
abbrev pub Leaves : ℕ → HttpParsed → Type 0
Leaves stage p = (p.context.stage ≡ stage) × (live : Bytes) × Holds p.rest live

-- A pair that is found lies within the text.
find_pair_within : (text : Bytes) (n : ℕ) → find_pair text ≡ some n → n + 2 ≤ length text
unfolding find_pair
find_pair_within [] n e = ground arith
find_pair_within (x ∷ []) n e = ground arith
find_pair_within (x ∷ y ∷ text) n e = elim (Option-cases (find_pair (y ∷ text))) [
  | inl missed ↦ ground (arith, missed)
  | inr (k, hit) ↦ ground (arith, hit, find_pair_within (y ∷ text) k hit)
]

pub if-Ends {ℓ} :
    {A : Type ℓ} (P : A → Type 0) (test : Bool) (a b : Run A)
    → Ends P a
    → Ends P b
    → Ends P (if test then a else b)
if-Ends P true a b first second = first
if-Ends P false a b first second = second

stage_if :
    (test : Bool) (a b c : HttpContext)
    → a.stage ≡ c.stage
    → b.stage ≡ c.stage
    → (if test then a else b).stage ≡ c.stage
stage_if true a b c first second = first
stage_if false a b c first second = second

-- A context of the same stage.
abbrev pub KeepsStage : HttpContext → HttpContext → Type 0
KeepsStage c c' = c'.stage ≡ c.stage

sized-Ends :
    (c : HttpContext) (size : Option ℤ)
    → Ends
        (KeepsStage c)
        (elim size [ none ↦ fault | some n ↦ returns (record c { body_size = n }) ])
sized-Ends c none = tt
sized-Ends c (some n) = refl

set_body_size-Ends : (c : HttpContext) (value : Bytes) → Ends (KeepsStage c) (set_body_size c value)
unfolding set_body_size
set_body_size-Ends c value = sized-Ends c (stoi value)

apply_header-Ends :
    (c : HttpContext) (key value : Bytes) → Ends (KeepsStage c) (apply_header c key value)
unfolding apply_header
apply_header-Ends c key value =
    Ends->>= (KeepsStage c) (KeepsStage c) _ _
      (if-Ends (KeepsStage c) (same_bytes key (codes "Content-Length")) (set_body_size c value)
        (returns c) (set_body_size-Ends c value) refl)
      λ sized kept. stage_if _ _ sized c kept kept

store_header-Ends :
    (c : HttpContext) (key value : Bytes) → Ends (KeepsStage c) (store_header c key value)
unfolding store_header
store_header-Ends c key value =
    elim (Bool-cases (is_empty key || is_empty value || has_header key c.headers)) [
      | inl passed ↦ rw passed refl
      | inr new ↦ rw new (apply_header-Ends c key value)
    ]

pub read_range-Ends : (mem : Bytes) (at n : ℕ) → Ends (λ _. Unit) (read_range mem at n)
unfolding read_range
read_range-Ends mem at n = elim (Bool-cases (leb (at + n) (length mem))) [
  | inl inside ↦ rw inside tt
  | inr outside ↦ rw outside tt
]

cut_header-Ends :
    (c : HttpContext) (b : Buffer) (n colon : ℕ) → Ends (KeepsStage c) (cut_header c b n colon)
unfolding cut_header
cut_header-Ends c b n colon =
    Ends->>= (λ _. Unit) (KeepsStage c) (read_range b.storage b.rindex colon) _
      (read_range-Ends b.storage b.rindex colon)
      λ key _.
        Ends->>= (λ _. Unit) (KeepsStage c)
          (read_range b.storage (b.rindex + colon + 1) (n - colon - 1)) _
          (read_range-Ends b.storage (b.rindex + colon + 1) (n - colon - 1))
          λ value _. store_header-Ends c (trim key) (trim value)

-- What is left of the queue after its first `n` bytes.
pub retrieve-drop :
    {b : Buffer} {live : Bytes} (n : ℕ)
    → Holds b live
    → n ≤ length live
    → Holds (retrieve n b) (drop n live)
retrieve-drop {b} {live} n h fits =
    retrieve-Holds (take n live) (drop n live) (subst (Holds b) (sym (take-append-drop n live)) h)
      (omega (arith, length-take n live, fits))

-- The line ends within the queue.
pub with_line-Ends :
    (P : HttpParsed → Type 0) {b : Buffer} {live : Bytes} (limit : ℕ) (c : HttpContext)
    (found : ℕ → Run HttpParsed)
    → Holds b live
    → ((st : ParseProtocolStatus) → P (record { status = st; context = c; rest = b }))
    → ((n : ℕ) → n + 2 ≤ length live → Ends P (found n))
    → Ends P (with_line limit c b found)
unfolding with_line find_crlf read_range
with_line-Ends P {b} {live} limit c found h same done =
    let size = min (readable b) limit in
    let text = take size (drop b.rindex b.storage) in
    elim (Bool-cases (size == 0)) [
      | inl empty ↦ rw empty (same no_enough_data)
      | inr some_bytes ↦ elim (Bool-cases (leb (b.rindex + size) (length b.storage))) [
        | inl inside ↦ elim (Option-cases (find_pair text)) [
          | inl missed ↦ rw (some_bytes, inside, missed) (same _)
          | inr (n, hit) ↦
              rw (some_bytes, inside, hit)
                (done n (
                  omega (
                    arith,
                    find_pair_within text n hit,
                    length-take size (drop b.rindex b.storage),
                    readable-Holds h,
                  )))
        ]
        | inr outside ↦ rw (some_bytes, outside) tt
      ]
    ]

headers_loop-Ends :
    (fuel stage : ℕ) {b : Buffer} {live : Bytes} (c : HttpContext)
    → c.stage ≡ stage
    → Holds b live
    → length live < fuel
    → Ends (Leaves stage) (headers_loop fuel c b)
unfolding headers_loop
headers_loop-Ends zero stage c e h enough = absurd (omega arith)
headers_loop-Ends (suc fuel) stage {b} {live} c e h enough =
    with_line-Ends (Leaves stage) max_header_size c _ h (λ st. (e, live, h))
      λ n within. elim (Bool-cases (n == 0)) [
        | inl last ↦ rw last (e, drop 2 live, retrieve-drop 2 h (omega (arith, within)))
        | inr more ↦ rw more (
            Ends->>= (λ _. Unit) (Leaves stage) (mem_chr b.storage b.rindex b':' n) _
              (total-Ends _ (mem_chr_total b.storage b.rindex b':' n))
              λ colon _. elim (Option-cases colon) [
                | inl missed ↦ rw missed (e, live, h)
                | inr (at, hit) ↦ rw hit (elim (Bool-cases (at == 0)) [
                  | inl first ↦ rw first (e, live, h)
                  | inr later ↦ rw later (
                      Ends->>= (KeepsStage c) (Leaves stage) (cut_header c b n at) _
                        (cut_header-Ends c b n at)
                        λ c' kept.
                          headers_loop-Ends fuel stage c' (kept ∙ e)
                            (retrieve-drop (n + 2) h within)
                            (omega (arith, enough, length-drop (n + 2) live)))
                ])
              ])
      ]

-- The loop of `_parse_headers` ends: with as many rounds as there are bytes it comes to the empty line, to a
-- line that is wrong or missing, or to an exception.
pub parse_headers-Ends :
    {b : Buffer} {live : Bytes} (c : HttpContext)
    → Holds b live
    → Ends (Leaves c.stage) (parse_headers c b)
unfolding parse_headers
parse_headers-Ends {b} {live} c h =
    headers_loop-Ends (suc (readable b)) c.stage c refl h (omega (arith, readable-Holds h))
