-- ===== src/Http/Found.antt =====
-- What the parsers find in a queue that begins with a line.
use small_rpc.Prelude.{
  ℕ, zero, suc, ◌+◌, ◌≤◌, ◌<◌, ◌≡◌, ◌≢◌, refl, ap, ◌∙◌, arith, true, ne→==, [], ◌∷◌, ◌++◌,
  append_assoc, Bytes, length, length-append, take, drop, drop-append, drop_past, Lacks, min, leb,
  le→leb, some, none, Run, returns,
}
use small_rpc.Buffer.{
  Buffer, retrieve, readable, read_range, find_crlf, find_pair, scan_chr, mem_chr,
}
use small_rpc.Buffer.Search.{scan_chr-append}
use small_rpc.Buffer.Contents.{Holds, Holds-bounds, readable-Holds, read_range-append}
use small_rpc.Http.Line.{with_line, find_from, byte_at}
use small_rpc.Http.State.{HttpContext, HttpParsed}
use small_rpc.Http.Wire.{line}

-- Only the read index has moved.
abbrev pub Moved : Buffer → Buffer → Type 0
Moved b b' = (b'.storage ≡ b.storage) × (b'.windex ≡ b.windex)

pub retrieve-Moved : (n : ℕ) (b : Buffer) → Moved b (retrieve n b)
unfolding retrieve
retrieve-Moved n b = (refl, refl)

find_pair-line :
    (text rest : Bytes) → Lacks b'\r' text → find_pair (line text rest) ≡ some (length text)
unfolding find_pair
find_pair-line [] rest lacks = refl
find_pair-line (x ∷ []) rest lacks = rw (ne→== x b'\r' lacks.0) refl
find_pair-line (x ∷ y ∷ text) rest lacks =
    rw (ne→== x b'\r' lacks.0) (rw (find_pair-line (y ∷ text) rest lacks.1) refl)

take-line :
    (n : ℕ) (text rest : Bytes)
    → length text + 2 ≤ n
    → (tail : Bytes) × (take n (line text rest) ≡ line text tail)
take-line zero text rest h = absurd (omega arith)
take-line (suc zero) text rest h = absurd (omega arith)
take-line (suc (suc n)) [] rest h = (take n rest, refl)
take-line (suc (suc n)) (x ∷ text) rest h =
    let (tail, e) = take-line (suc n) text rest (omega arith) in (tail, ap (◌∷◌ x) e)

-- The memory from a place in the queue on.
pub drop-Holds :
    {b : Buffer} (xs ys : Bytes) {n : ℕ} (h : Holds b (xs ++ ys))
    → n ≡ length xs
    → drop (b.rindex + n) b.storage ≡ ys ++ h.room
drop-Holds {b} xs ys {n} h e =
    ap (drop (b.rindex + n)) (h.splits ∙ simp append_assoc)
    ∙ drop_past (b.rindex + n) n h.dead (xs ++ (ys ++ h.room)) (omega (arith, h.starts))
    ∙ drop-append n xs (ys ++ h.room) e

pub read_range-inside :
    {b : Buffer} (xs ys zs : Bytes) {at n : ℕ} (h : Holds b (xs ++ (ys ++ zs)))
    → at ≡ b.rindex + length xs
    → n ≡ length ys
    → read_range b.storage at n ≡ returns ys
read_range-inside {b} xs ys zs {at} {n} h e k =
    let regroup : b.storage ≡ (h.dead ++ xs) ++ (ys ++ (zs ++ h.room)) =
      h.splits ∙ simp append_assoc in
    rw regroup (
      read_range-append (h.dead ++ xs) ys (zs ++ h.room)
        (omega (arith, h.starts, e, length-append h.dead xs)) k)

-- A line that is short enough, and whose text has no carriage return, is found.
pub with_line_found :
    {b : Buffer} (text rest : Bytes) (limit : ℕ) (c : HttpContext) (found : ℕ → Run HttpParsed)
    → Holds b (line text rest)
    → Lacks b'\r' text
    → length text + 2 ≤ limit
    → with_line limit c b found ≡ found (length text)
unfolding with_line find_crlf read_range
with_line_found {b} text rest limit c found h lacks short =
    let total = length-append text (b'\r' ∷ b'\n' ∷ rest) in
    let size = min (readable b) limit in
    let enough : 2 + length text ≤ size = omega (arith, readable-Holds h, total, short) in
    let some_bytes : size ≢ 0 = omega (arith, enough) in
    let inside : leb (b.rindex + size) (length b.storage) ≡ true =
      le→leb _ _ (omega (arith, Holds-bounds h, readable-Holds h)) in
    let memory : drop b.rindex b.storage ≡ line text (rest ++ h.room) =
      ap (drop b.rindex) h.splits
      ∙ drop-append b.rindex h.dead _ h.starts
      ∙ append_assoc text _ h.room in
    let (tail, cut) = take-line size text (rest ++ h.room) (omega (arith, enough)) in
    let seen : take size (drop b.rindex b.storage) ≡ line text tail = ap (take size) memory ∙ cut in
    rw (ne→== size 0 some_bytes, inside, seen, find_pair-line text tail lacks) refl

scan_chr-Lacks :
    (c : ℕ) (xs ys : Bytes) → Lacks c xs → scan_chr c (length xs) (xs ++ ys) ≡ returns none
unfolding scan_chr
scan_chr-Lacks c [] ys lacks = refl
scan_chr-Lacks c (x ∷ xs) ys lacks =
    rw (ne→== x c lacks.0) (rw (scan_chr-Lacks c xs ys lacks.1) refl)

-- The first byte `x` from a place on, as an offset from the head of the queue.
pub find_from-hit :
    {b : Buffer} (xs ys zs : Bytes) (x offset count : ℕ)
    → Holds b (xs ++ (ys ++ x ∷ zs))
    → offset ≡ length xs
    → Lacks x ys
    → length ys < count
    → find_from b x offset count ≡ returns (some (offset + length ys))
unfolding find_from mem_chr
find_from-hit {b} xs ys zs x offset count h e lacks inside =
    rw (drop-Holds xs (ys ++ x ∷ zs) h e, append_assoc)
      (rw (scan_chr-append x count ys (zs ++ h.room) lacks inside) refl)

-- The first byte `x` of the queue.
pub mem_chr-hit :
    {b : Buffer} (ys zs : Bytes) (x count : ℕ)
    → Holds b (ys ++ x ∷ zs)
    → Lacks x ys
    → length ys < count
    → mem_chr b.storage b.rindex x count ≡ returns (some (length ys))
unfolding mem_chr
mem_chr-hit {b} ys zs x count h lacks inside =
    let memory : drop b.rindex b.storage ≡ ys ++ x ∷ (zs ++ h.room) =
      ap (drop b.rindex) h.splits
      ∙ drop-append b.rindex h.dead _ h.starts
      ∙ append_assoc ys (x ∷ zs) h.room in
    rw memory (scan_chr-append x count ys (zs ++ h.room) lacks inside)

pub find_from-miss :
    {b : Buffer} (xs ys zs : Bytes) (x offset count : ℕ)
    → Holds b (xs ++ (ys ++ zs))
    → offset ≡ length xs
    → Lacks x ys
    → count ≡ length ys
    → find_from b x offset count ≡ returns none
unfolding find_from mem_chr
find_from-miss {b} xs ys zs x offset count h e lacks all =
    rw (drop-Holds xs (ys ++ zs) h e, append_assoc, all)
      (rw (scan_chr-Lacks x ys (zs ++ h.room) lacks) refl)

pub byte_at-inside :
    {b : Buffer} (xs zs : Bytes) (x offset : ℕ)
    → Holds b (xs ++ x ∷ zs)
    → offset ≡ length xs
    → byte_at b offset ≡ returns x
unfolding byte_at
byte_at-inside {b} xs zs x offset h e =
    let place : b.rindex + offset ≡ b.rindex + length xs = ap (λ k. b.rindex + k) e in
    rw (read_range-inside xs (x ∷ []) zs h place refl) refl
