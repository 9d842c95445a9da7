-- ===== src/Http/Pieces.antt =====
-- A request that arrives in pieces.
use small_rpc.Prelude.{
  All-append, ℕ, zero, suc, ◌+◌, ◌^◌, ◌≤◌, ◌<◌, ◌≡◌, ◌≢◌, ◌⊎◌, inl, inr, refl, ap, subst,
  Bool-cases, ltb, ◌∙◌, arith, [], ◌∷◌, ◌++◌, append_assoc, Bytes, codes, length, length-append,
  Lacks, Run,
}
use small_rpc.Buffer.{Buffer, retrieve}
use small_rpc.Buffer.Contents.{Holds, readable-Holds}
use small_rpc.Http.Decimal.{decimal-Lacks, decimal-fits}
use small_rpc.Http.Found.{Moved, retrieve-Moved}
use small_rpc.Http.Header.{headers_loop, parse_headers}
use small_rpc.Http.Lines.{header, headers_loop_end}
use small_rpc.Http.Short.{reached, with_line_short}
use small_rpc.Http.State.{HttpContext, HttpParsed, answer}
use small_rpc.Http.Stored.{
  connected, typed, with_headers, from_connection, from_type, from_length, connection-Passes,
  type-Passes, length-Passes, connection_plain, Passes,
}
use small_rpc.Http.Text.{decimal}
use small_rpc.Http.Wire.{line, connection}
use small_rpc.Protocol.{Context, ConnType, no_enough_data, part_success}

-- In the stage of the headers, with the names of a call read, and its connection type not.
abbrev pub Named : Context → ConnType → HttpContext → Type 0
Named to before c =
    (c.base.service ≡ to.service)
    × (c.base.method ≡ to.method)
    × (c.base.conn_type ≡ before)
    × (c.stage ≡ 1)

-- A context in the stage of the headers, and what of them is still unread.
pub data InHeaders (to : Context) (before : ConnType) : HttpContext → Bytes → Type 0 where
  at_connection :
      (c : HttpContext)
      → Named to before c
      → InHeaders to before (record c { headers = [] }) (from_connection to to.payload)
  at_type :
      (c : HttpContext)
      → Named to before c
      → InHeaders to before (connected to.conn_type c) (from_type to to.payload)
  at_length :
      (c : HttpContext)
      → Named to before c
      → InHeaders to before (typed to.conn_type c) (from_length to to.payload)
  at_end :
      (c : HttpContext)
      → Named to before c
      → InHeaders to before (with_headers to c) (line [] to.payload)

-- The loop over the headers waits within them, or has come to their end.
abbrev pub Looped : Context → ConnType → Bytes → Buffer → Run HttpParsed → Type 0
Looped to before todo b run =
    (b' : Buffer) × (c' : HttpContext) × (live : Bytes) × Holds b' live
    × Moved b b'
    × (((run ≡ answer no_enough_data c' b')
          × (todo ≢ [])
          × (text : Bytes) × InHeaders to before c' text
          × (live ++ todo ≡ text))
        ⊎ ((run ≡ answer part_success (with_headers to c') b')
            × Named to before c'
            × (live ++ todo ≡ to.payload)))

-- A queue that ends within a line leaves something to come.
pub short_todo :
    (live todo text rest : Bytes)
    → live ++ todo ≡ line text rest
    → length live < length text + 2
    → todo ≢ []
short_todo live todo text rest e short none_left = omega (
  arith,
  ap length e,
  length-append live todo,
  length-append text (b'\r' ∷ b'\n' ∷ rest),
  ap length none_left,
)

-- A queue that holds a line has its text and what came behind it.
pub long_rest :
    (live todo text rest : Bytes)
    → live ++ todo ≡ line text rest
    → length text + 2 ≤ length live
    → (more : Bytes) × (live ≡ line text more) × (more ++ todo ≡ rest)
long_rest live todo text rest e long =
    let (more, start, tail) =
      reached live todo (text ++ b'\r' ∷ b'\n' ∷ []) rest (e ∙ simp append_assoc)
        (omega (arith, length-append text (b'\r' ∷ b'\n' ∷ []))) in
    (more, start ∙ simp append_assoc, tail)

module _ (to : Context) (before : ConnType) (todo : Bytes) where
  Looped-back :
      (b b' : Buffer) {run run' : Run HttpParsed}
      → Moved b b'
      → run ≡ run'
      → Looped to before todo b' run'
      → Looped to before todo b run
  Looped-back b b' (m0, m1) e (b2, c2, live, h, (k0, k1), inl (r, more, text, place, cut)) =
      (b2, c2, live, h, (k0 ∙ m0, k1 ∙ m1), inl (e ∙ r, more, text, place, cut))
  Looped-back b b' (m0, m1) e (b2, c2, live, h, (k0, k1), inr (r, named, cut)) =
      (b2, c2, live, h, (k0 ∙ m0, k1 ∙ m1), inr (e ∙ r, named, cut))

  -- A line of the headers is waited for, or passed.
  line_step :
      (c c' : HttpContext) {b : Buffer} {live : Bytes} (fuel : ℕ) (text rest : Bytes)
      → Holds b live
      → live ++ todo ≡ line text rest
      → length text + 2 ≤ 65536
      → Lacks b'\r' text
      → InHeaders to before c (line text rest)
      → ((more : Bytes) → Holds b (line text more) → Passes fuel c b c' more)
      → ((more : Bytes) (b' : Buffer)
          → Holds b' more
          → more ++ todo ≡ rest
          → length more + 2 ≤ length live
          → Looped to before todo b' (headers_loop fuel c' b'))
      → Looped to before todo b (headers_loop (suc fuel) c b)
  line_step c c' {b} {live} fuel text rest h e fits lacks place passes next =
      elim (Bool-cases (ltb (length live) (length text + 2))) [
        | inl cut ↦
            let short : length live < length text + 2 = ground (arith, cut) in
            (
              b,
              c,
              live,
              h,
              (refl, refl),
              inl (
                unfold headers_loop in with_line_short todo text rest c _ h e short fits lacks,
                short_todo live todo text rest e short,
                line text rest,
                place,
                e,
              ),
            )
        | inr whole ↦
            let long : length text + 2 ≤ length live = ground (arith, whole) in
            let (more, start, tail) = long_rest live todo text rest e long in
            let (b', run, h', moved) = passes more (subst (Holds b) start h) in
            let size : length more + 2 ≤ length live =
              omega (arith, ap length start, length-append text (b'\r' ∷ b'\n' ∷ more)) in
            Looped-back b b' moved run (next more b' h' tail size)
      ]

  module _ (named_as : HttpContext) (named : Named to before named_as)
      (small : length to.payload < 2 ^ 31) where
    end_loops :
        (fuel : ℕ) {b : Buffer} {live : Bytes}
        → Holds b live
        → live ++ todo ≡ line [] to.payload
        → length live < fuel
        → Looped to before todo b (headers_loop fuel (with_headers to named_as) b)
    end_loops zero h e enough = absurd (omega arith)
    end_loops (suc fuel) {b} {live} h e enough = elim (Bool-cases (ltb (length live) 2)) [
      | inl cut ↦
          let short : length live < 2 = ground (arith, cut) in
          (
            b,
            with_headers to named_as,
            live,
            h,
            (refl, refl),
            inl (
              unfold headers_loop in
                  with_line_short todo [] to.payload _ _ h e short (omega arith) tt,
              short_todo live todo [] to.payload e short,
              line [] to.payload,
              at_end named_as named,
              e,
            ),
          )
      | inr whole ↦
          let long : 2 ≤ length live = ground (arith, whole) in
          let (more, start, tail) = long_rest live todo [] to.payload e long in
          let (run, h') =
            headers_loop_end more fuel (with_headers to named_as) (subst (Holds b) start h) in
          (retrieve 2 b, named_as, more, h', retrieve-Moved 2 b, inr (run, named, tail))
    ]

    length_loops :
        (fuel : ℕ) {b : Buffer} {live : Bytes}
        → Holds b live
        → live ++ todo ≡ from_length to to.payload
        → length live < fuel
        → Looped to before todo b (headers_loop fuel (typed to.conn_type named_as) b)
    length_loops zero h e enough = absurd (omega arith)
    length_loops (suc fuel) {b} {live} h e enough =
        let digits = decimal-Lacks b'\r' (length to.payload) (omega arith) in
        let key : Lacks b'\r' (codes "Content-Length: ") = omega arith in
        line_step (typed to.conn_type named_as) (with_headers to named_as) fuel
          (header (codes "Content-Length") (decimal (length to.payload))) (line [] to.payload) h e
          (omega (arith, decimal-fits (length to.payload)))
          (All-append (λ x. x ≢ b'\r') (codes "Content-Length: ") _ key digits)
          (at_length named_as named) (λ more k. length-Passes to more named_as fuel small k)
          λ more b' h' tail size. end_loops fuel h' tail (omega (arith, size, enough))

    type_loops :
        (fuel : ℕ) {b : Buffer} {live : Bytes}
        → Holds b live
        → live ++ todo ≡ from_type to to.payload
        → length live < fuel
        → Looped to before todo b (headers_loop fuel (connected to.conn_type named_as) b)
    type_loops zero h e enough = absurd (omega arith)
    type_loops (suc fuel) {b} {live} h e enough =
        line_step (connected to.conn_type named_as) (typed to.conn_type named_as) fuel
          (header (codes "Content-Type") (codes "application/data")) (from_length to to.payload) h e
          (omega arith) (omega arith) (at_type named_as named)
          (λ more k. type-Passes to more named_as fuel k)
          λ more b' h' tail size. length_loops fuel h' tail (omega (arith, size, enough))

    connection_loops :
        (fuel : ℕ) {b : Buffer} {live : Bytes}
        → Holds b live
        → live ++ todo ≡ from_connection to to.payload
        → length live < fuel
        → Looped to before todo b (headers_loop fuel (record named_as { headers = [] }) b)
    connection_loops zero h e enough = absurd (omega arith)
    connection_loops (suc fuel) {b} {live} h e enough =
        let (plain, brief) = connection_plain to.conn_type in
        let key : Lacks b'\r' (codes "Connection: ") = omega arith in
        line_step (record named_as { headers = [] }) (connected to.conn_type named_as) fuel
          (header (codes "Connection") (connection to.conn_type)) (from_type to to.payload) h e
          (omega (arith, brief)) (All-append (λ x. x ≢ b'\r') (codes "Connection: ") _ key plain)
          (at_connection named_as named) (λ more k. connection-Passes to more named_as fuel k)
          λ more b' h' tail size. type_loops fuel h' tail (omega (arith, size, enough))

  -- The stage of the headers, wherever it stands.
  pub parse_headers_loops :
      {c : HttpContext} {text : Bytes} {b : Buffer} {live : Bytes}
      → InHeaders to before c text
      → length to.payload < 2 ^ 31
      → Holds b live
      → live ++ todo ≡ text
      → Looped to before todo b (parse_headers c b)
  unfolding parse_headers
  parse_headers_loops (at_connection c named) small h e =
      connection_loops c named small _ h e (omega (arith, readable-Holds h))
  parse_headers_loops (at_type c named) small h e =
      type_loops c named small _ h e (omega (arith, readable-Holds h))
  parse_headers_loops (at_length c named) small h e =
      length_loops c named small _ h e (omega (arith, readable-Holds h))
  parse_headers_loops (at_end c named) small h e =
      end_loops c named small _ h e (omega (arith, readable-Holds h))
