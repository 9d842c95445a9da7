-- ===== src/Http/Lines.antt =====
-- The header lines of a request and of a response.
use small_rpc.Prelude.{
  ℕ, suc, ◌+◌, ◌-◌, ◌≤◌, ◌≡◌, ◌≢◌, refl, subst, ◌∙◌, arith, true, false, ◌==◌, ne→==, [], ◌∷◌, ◌++◌,
  append_assoc, Bytes, length, length-append, All-append, Lacks, returns, ◌>>=◌,
}
use small_rpc.Buffer.{Buffer, retrieve}
use small_rpc.Buffer.Contents.{Holds, retrieve-Holds, read_range-Holds}
use small_rpc.Http.Found.{read_range-inside, with_line_found, mem_chr-hit, Moved, retrieve-Moved}
use small_rpc.Http.Header.{max_header_size, headers_loop, cut_header, store_header}
use small_rpc.Http.State.{HttpContext, answer}
use small_rpc.Http.Text.{trim}
use small_rpc.Http.Wire.{line}
use small_rpc.Protocol.{part_success, error}

-- A header line as it is written.
abbrev pub header : Bytes → Bytes → Bytes
header key value = key ++ b':' ∷ b' ' ∷ value

-- The line with its colon found.
colon_line :
    (b : Buffer) (fuel n at : ℕ) (c c' : HttpContext)
    → at ≢ 0
    → cut_header c b n at ≡ returns c'
    → (elim (at == 0) [
      | true ↦ answer error c b
      | false ↦ cut_header c b n at >>= λ c''. headers_loop fuel c'' (retrieve (n + 2) b)
    ])
      ≡ headers_loop fuel c' (retrieve (n + 2) b)
colon_line b fuel n at c c' some_key cut = rw (ne→== at 0 some_key, cut) refl

-- A header line is read and stored, and the loop goes on behind it.
pub headers_loop-line :
    (key value rest : Bytes) {b : Buffer} (fuel : ℕ) (c : HttpContext) {c' : HttpContext}
    → Holds b (line (header key value) rest)
    → length key ≢ 0
    → Lacks b':' key
    → Lacks b'\r' key
    → Lacks b'\r' value
    → 4 + length key + length value ≤ 65536
    → store_header c (trim key) (trim (b' ' ∷ value)) ≡ returns c'
    → (b' : Buffer) × (headers_loop (suc fuel) c b ≡ headers_loop fuel c' b')
      × Holds b' rest
      × Moved b b'
unfolding headers_loop cut_header
headers_loop-line key value rest {b} fuel c {c'} h some_key colon key_lacks value_lacks fits
      stores =
    let middle : Lacks b'\r' (b':' ∷ b' ' ∷ []) = omega arith in
    let lacks : Lacks b'\r' (header key value) =
      All-append (λ x. x ≢ b'\r') key _ key_lacks (middle.0, (middle.1.0, value_lacks)) in
    let some_bytes : length (header key value) ≢ 0 =
      omega (arith, length-append key (b':' ∷ b' ' ∷ value)) in
    let text : Bytes = header key value in
    let tail : Bytes = b'\r' ∷ b'\n' ∷ rest in
    let size : length text ≡ 2 + length key + length value =
      omega (arith, length-append key (b':' ∷ b' ' ∷ value)) in
    let apart : Holds b (key ++ (b':' ∷ b' ' ∷ (value ++ tail))) =
      subst (Holds b) (simp append_assoc) h in
    let behind : Holds b ((key ++ b':' ∷ []) ++ ((b' ' ∷ value) ++ tail)) =
      subst (Holds b) (simp append_assoc) h in
    let place : b.rindex + length key + 1 ≡ b.rindex + length (key ++ b':' ∷ []) =
      omega (arith, length-append key (b':' ∷ [])) in
    let room : length text - length key - 1 ≡ length (b' ' ∷ value) = omega (arith, size) in
    let cut : cut_header c b (length text) (length key) ≡ returns c' =
      rw
        (
          read_range-Holds key (b':' ∷ b' ' ∷ (value ++ tail)) apart refl,
          read_range-inside (key ++ b':' ∷ []) (b' ' ∷ value) tail behind place room,
        )
        stores in
    (
      retrieve (length text + 2) b,
      with_line_found text rest max_header_size c _ h lacks (omega (arith, size))
          ∙ rw
              (
                ne→== (length text) 0 some_bytes,
                mem_chr-hit key (b' ' ∷ (value ++ tail)) b':' (length text) apart colon
                    (omega (arith, size)),
              )
              (colon_line b fuel (length text) (length key) c c' some_key cut),
      retrieve-Holds (text ++ b'\r' ∷ b'\n' ∷ []) rest (subst (Holds b) (simp append_assoc) h)
          (omega (arith, length-append text (b'\r' ∷ b'\n' ∷ []))),
      retrieve-Moved (length text + 2) b,
    )

-- The empty line ends the headers.
pub headers_loop_end :
    {b : Buffer} (rest : Bytes) (fuel : ℕ) (c : HttpContext)
    → Holds b (line [] rest)
    → (headers_loop (suc fuel) c b ≡ answer part_success c (retrieve 2 b))
      × Holds (retrieve 2 b) rest
unfolding headers_loop
headers_loop_end rest fuel c h = (
  with_line_found [] rest max_header_size c _ h tt (omega arith),
  retrieve-Holds (b'\r' ∷ b'\n' ∷ []) rest h refl,
)
