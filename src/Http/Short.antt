-- ===== src/Http/Short.antt =====
-- What the parsers do with a queue that ends within a line.
use small_rpc.Prelude.{
  ℕ, ◌+◌, ◌≤◌, ◌<◌, ◌≡◌, ◌≢◌, inl, inr, refl, ap, subst, sym, ◌∙◌, arith, ◌==◌, ne→==, [], ◌∷◌,
  ◌++◌, append-nil, Bytes, Bool-cases, length, Lacks, min, none, Run, returns,
}
use small_rpc.Buffer.{Buffer, readable, read_range, find_crlf, find_pair}
use small_rpc.Buffer.Contents.{Holds, readable-Holds, read_range-Holds}
use small_rpc.Http.Line.{with_line, max_headline_size}
use small_rpc.Http.State.{HttpContext, HttpParsed, answer}
use small_rpc.Http.Wire.{line}
use small_rpc.Protocol.{no_enough_data}

-- A text that was cut in two places: the first part of the first cut is within that of the second.
pub reached :
    (xs ys zs ws : Bytes)
    → xs ++ ys ≡ zs ++ ws
    → length zs ≤ length xs
    → (more : Bytes) × (xs ≡ zs ++ more) × (more ++ ys ≡ ws)
reached xs ys [] ws e h = (xs, refl, e)
reached [] ys (z ∷ zs) ws e h = absurd (omega arith)
reached (x ∷ xs) ys (z ∷ zs) ws e h =
    let same : x ≡ z = cc in
    let rest : xs ++ ys ≡ zs ++ ws = cc in
    let (more, start, tail) = reached xs ys zs ws rest (omega arith) in
    (more, ap (λ t. x ∷ t) start ∙ ap (λ u. u ∷ (zs ++ more)) same, tail)

find_pair_short :
    (live todo text rest : Bytes)
    → live ++ todo ≡ line text rest
    → length live < length text + 2
    → Lacks b'\r' text
    → find_pair live ≡ none
unfolding find_pair
find_pair_short [] todo text rest e short lacks = refl
find_pair_short (x ∷ []) todo text rest e short lacks = refl
find_pair_short (x ∷ y ∷ live) todo [] rest e short lacks = absurd (omega arith)
find_pair_short (x ∷ y ∷ live) todo (u ∷ text) rest e short lacks =
    let same : x ≡ u = cc in
    let later : (y ∷ live) ++ todo ≡ line text rest = cc in
    let other : x ≢ b'\r' = λ k. lacks.0 (sym same ∙ k) in
    rw (ne→== x b'\r' other, find_pair_short (y ∷ live) todo text rest later (omega arith) lacks.1)
      refl

-- A line whose end has not come is waited for.
pub with_line_short :
    {b : Buffer} {live : Bytes} (todo text rest : Bytes) (c : HttpContext)
    (found : ℕ → Run HttpParsed)
    → Holds b live
    → live ++ todo ≡ line text rest
    → length live < length text + 2
    → length text + 2 ≤ 65536
    → Lacks b'\r' text
    → with_line max_headline_size c b found ≡ answer no_enough_data c b
unfolding with_line find_crlf
with_line_short {b} {live} todo text rest c found h e short fits lacks =
    let size : min (readable b) 65536 ≡ length live = omega (arith, readable-Holds h) in
    let not_full : length live ≢ 65536 = omega arith in
    let all : read_range b.storage b.rindex (length live) ≡ returns live =
      read_range-Holds {b = b} live [] (subst (Holds b) (sym (append-nil live)) h) refl in
    elim (Bool-cases (length live == 0)) [
      | inl empty ↦ rw (size, empty) refl
      | inr more ↦
          rw (size, more)
            (rw (all, find_pair_short live todo text rest e short lacks)
              (rw (size, ne→== (length live) 65536 not_full) refl))
    ]
