-- ===== src/Http/FirstLine.antt =====
-- The first line of a request, and of a response.
use small_rpc.Prelude.{
  ℕ, ◌+◌, ◌-◌, ◌≤◌, ◌≡◌, ◌≢◌, refl, ap, subst, ◌∙◌, arith, ne→==, [], ◌∷◌, ◌++◌, append_assoc,
  Bytes, codes, length, length-append, All-append, drop, drop-append, Lacks, some, returns, sub64,
}
use small_rpc.Buffer.{Buffer, retrieve, view_at}
use small_rpc.Buffer.Contents.{Holds, retrieve-Holds}
use small_rpc.Http.Found.{
  read_range-inside, with_line_found, find_from-hit, find_from-miss, byte_at-inside, Moved,
  retrieve-Moved,
}
use small_rpc.Http.Line.{
  find_from, max_headline_size, parse_version, split_url, take_url, parse_url, parse_target,
  parse_method, parse_request_line, parse_response_line,
}
use small_rpc.Http.State.{HttpContext, answer, match_method, find_method, http_methods}
use small_rpc.Http.Text.{starts_with}
use small_rpc.Http.Wire.{line, request_line, status_line, IsSendable}
use small_rpc.Protocol.{Context, part_success}

-- The queue behind the name of the method, without brackets.
abbrev request_text : Bytes → Bytes → Bytes → Bytes
request_text service method rest =
    codes "POST /"
    ++ (service ++ b'/' ∷ (method ++ b' ' ∷ (codes "HTTP/1.1" ++ b'\r' ∷ b'\n' ∷ rest)))

module _ {b : Buffer} (service method rest : Bytes) (h : Holds b (request_text service method rest))
    (c : HttpContext) (n : ℕ) (size : n ≡ 16 + length service + length method)
    (short : n + 2 ≤ 65536) where
  parse_version_found :
      parse_version c b n (7 + length service + length method + 1)
      ≡ answer part_success
          (record c {
            http_version =
                view_at
                  (b.rindex + (7 + length service + length method + 1))
                  (sub64 n (7 + length service + length method + 1));
            request_line = view_at b.rindex n;
          })
          (retrieve (n + 2) b)
  unfolding parse_version
  parse_version_found =
      let lacks : Lacks b' ' (codes "HTTP/1.1") = omega arith in
      let before : Bytes = codes "POST /" ++ (service ++ b'/' ∷ (method ++ b' ' ∷ [])) in
      let h' : Holds b (before ++ (codes "HTTP/1.1" ++ b'\r' ∷ b'\n' ∷ rest)) =
        subst (Holds b) (simp append_assoc) h in
      let place : 7 + length service + length method + 1 ≡ length before = omega (
        arith,
        length-append service (b'/' ∷ (method ++ b' ' ∷ [])),
        length-append method (b' ' ∷ []),
      ) in
      rw
        (find_from-miss before (codes "HTTP/1.1") _ b' ' _
          (sub64 n (7 + length service + length method + 1)) h' place lacks (omega (arith, size)))
        refl

  split_url_found :
      Lacks b'/' service
      → split_url c b 5 (7 + length service + length method)
        ≡ returns (record c { base = record c.base { service = service; method = method } })
  unfolding split_url
  split_url_found lacks =
      let tail : Bytes = method ++ b' ' ∷ (codes "HTTP/1.1" ++ b'\r' ∷ b'\n' ∷ rest) in
      let behind : Bytes = b' ' ∷ (codes "HTTP/1.1" ++ b'\r' ∷ b'\n' ∷ rest) in
      let before : Bytes = codes "POST /" ++ (service ++ b'/' ∷ []) in
      let h' : Holds b (before ++ (method ++ behind)) = subst (Holds b) (simp append_assoc) h in
      let slash =
        find_from-hit (codes "POST /") service tail b'/' 6
          (sub64 (7 + length service + length method) 5) h refl lacks
          (omega (arith, size, short)) in
      let start : b.rindex + 5 + 1 ≡ b.rindex + length (codes "POST /") = omega arith in
      let first : (6 + length service) - 5 - 1 ≡ length service = omega arith in
      let place : b.rindex + (6 + length service) + 1 ≡ b.rindex + length before =
        omega (arith, length-append service (b'/' ∷ [])) in
      let second : (7 + length service + length method) - (6 + length service) - 1 ≡ length method =
        omega arith in
      rw slash (
        rw (read_range-inside (codes "POST /") service (b'/' ∷ tail) h start first)
          (rw (read_range-inside before method behind h' place second) refl))

-- The context once the line is read: `at` is where the queue begins.
abbrev pub with_request : Bytes → Bytes → ℕ → HttpContext → HttpContext
with_request service method at c = record c {
  base = record c.base { service = service; method = method };
  http_method = some 1;
  http_url = view_at (at + 5) ((7 + length service + length method) - 5);
  http_version =
      view_at (at + (7 + length service + length method + 1))
        (sub64 (16 + length service + length method) (7 + length service + length method + 1));
  request_line = view_at at (16 + length service + length method);
}

-- The method of a queue that begins with POST.
pub match_method_post :
    {b : Buffer} (rest : Bytes)
    → Holds b (codes "POST" ++ rest)
    → match_method (drop b.rindex b.storage) ≡ returns (some (1, codes "POST"))
unfolding match_method find_method http_methods starts_with
match_method_post {b} rest h =
    let memory : drop b.rindex b.storage ≡ codes "POST" ++ (rest ++ h.room) =
      ap (drop b.rindex) h.splits ∙ drop-append b.rindex h.dead _ h.starts in
    ap match_method memory

module _ {b : Buffer} (service method rest : Bytes) (h : Holds b (request_text service method rest))
    (c : HttpContext) (short : 18 + length service + length method ≤ 65536)
    (slash : Lacks b'/' service) (service_space : Lacks b' ' service)
    (method_space : Lacks b' ' method) where
  parse_url_found :
      parse_url (record c { http_method = some 1 }) b (16 + length service + length method) 5
      ≡ answer part_success
          (with_request service method b.rindex c)
          (retrieve (16 + length service + length method + 2) b)
  unfolding parse_url take_url
  parse_url_found =
      let n : ℕ = 16 + length service + length method in
      let url : Bytes = b'/' ∷ (service ++ b'/' ∷ method) in
      let behind : Bytes = codes "HTTP/1.1" ++ b'\r' ∷ b'\n' ∷ rest in
      let h' : Holds b (codes "POST " ++ (url ++ b' ' ∷ behind)) =
        subst (Holds b) (simp append_assoc) h in
      let url_size : length url ≡ 2 + length service + length method =
        omega (arith, length-append service (b'/' ∷ method)) in
      let slash_space : b'/' ≢ b' ' = omega arith in
      let lacks : Lacks b' ' url = (
        slash_space,
        All-append (λ x. x ≢ b' ') service (b'/' ∷ method) service_space
            (slash_space, method_space),
      ) in
      let place : 5 + length url ≡ 7 + length service + length method = omega (arith, url_size) in
      let space : find_from b b' ' 5 (sub64 n 5)
          ≡ returns (some (7 + length service + length method)) =
        find_from-hit (codes "POST ") url behind b' ' 5 (sub64 n 5) h' refl lacks
          (omega (arith, url_size, short))
        ∙ ap (λ k. returns (some k)) place in
      let more : 7 + length service + length method ≢ 5 = omega arith in
      let first =
        byte_at-inside (codes "POST ") (service ++ b'/' ∷ (method ++ b' ' ∷ behind)) b'/' 5 h
          refl in
      rw space (
        rw (ne→== _ 5 more) (
          rw first (
            rw (split_url_found service method rest h _ n refl (omega (arith, short)) slash)
              (parse_version_found service method rest h _ n refl (omega (arith, short))))))

  parse_target_found :
      parse_target (record c { http_method = some 1 }) b (16 + length service + length method) 4
      ≡ answer part_success
          (with_request service method b.rindex c)
          (retrieve (16 + length service + length method + 2) b)
  unfolding parse_target
  parse_target_found =
      let tail : Bytes =
        b'/' ∷ (service ++ b'/' ∷ (method ++ b' ' ∷ (codes "HTTP/1.1" ++ b'\r' ∷ b'\n' ∷ rest))) in
      let blank = byte_at-inside (codes "POST") tail b' ' 4 h refl in rw blank parse_url_found

  parse_method_found :
      parse_method c b (16 + length service + length method)
      ≡ answer part_success
          (with_request service method b.rindex c)
          (retrieve (16 + length service + length method + 2) b)
  unfolding parse_method
  parse_method_found = rw (match_method_post _ h) parse_target_found

-- The line has room, and no carriage return.
pub request_line_plain :
    (to : Context)
    → IsSendable to
    → (length (request_line to) ≡ 16 + length to.service + length to.method)
      × Lacks b'\r' (request_line to)
request_line_plain to s =
    let size : length (request_line to) ≡ 16 + length to.service + length to.method = omega (
      arith,
      length-append to.service (b'/' ∷ (to.method ++ b' ' ∷ codes "HTTP/1.1")),
      length-append to.method (b' ' ∷ codes "HTTP/1.1"),
    ) in
    let version : Lacks b'\r' (b' ' ∷ codes "HTTP/1.1") = omega arith in
    let start : Lacks b'\r' (codes "POST /") = omega arith in
    let slash : b'/' ≢ b'\r' = omega arith in
    let path : Lacks b'\r' (to.service ++ b'/' ∷ (to.method ++ b' ' ∷ codes "HTTP/1.1")) =
      All-append (λ x. x ≢ b'\r') to.service _ s.service_no_return
        (slash, All-append (λ x. x ≢ b'\r') to.method _ s.method_no_return version) in
    let lacks : Lacks b'\r' (request_line to) =
      All-append (λ x. x ≢ b'\r') (codes "POST /") _ start path in
    (size, lacks)

-- The line of a request that can be sent is read, with what follows left unread.
pub parse_request_line_found :
    (to : Context) {b : Buffer} (rest : Bytes) (c : HttpContext)
    → IsSendable to
    → Holds b (line (request_line to) rest)
    → (b' : Buffer) × (parse_request_line c b
        ≡ answer part_success (with_request to.service to.method b.rindex c) b')
      × Holds b' rest
      × Moved b b'
unfolding parse_request_line
parse_request_line_found to {b} rest c s h =
    let text : Bytes = request_line to in
    let (size, lacks) = request_line_plain to s in
    let h' : Holds b (request_text to.service to.method rest) =
      subst (Holds b) (simp append_assoc) h in
    (
      retrieve (16 + length to.service + length to.method + 2) b,
      with_line_found text rest max_headline_size c (parse_method c b) h lacks
            (omega (arith, size, s.line_fits))
          ∙ ap (parse_method c b) size
          ∙ parse_method_found to.service to.method rest h' c s.line_fits s.no_slash
              s.service_no_space s.method_no_space,
      retrieve-Holds (text ++ b'\r' ∷ b'\n' ∷ []) rest (subst (Holds b) (simp append_assoc) h)
          (omega (arith, size, length-append text (b'\r' ∷ b'\n' ∷ []))),
      retrieve-Moved (16 + length to.service + length to.method + 2) b,
    )

-- The line of a response is skipped.
pub parse_response_line_found :
    {b : Buffer} (rest : Bytes) (c : HttpContext)
    → Holds b (line status_line rest)
    → (b' : Buffer) × (parse_response_line c b
        ≡ answer part_success (record c { request_line = view_at b.rindex 15 }) b')
      × Holds b' rest
unfolding parse_response_line
parse_response_line_found {b} rest c h =
    let lacks : Lacks b'\r' status_line = omega arith in
    (
      retrieve 17 b,
      with_line_found status_line rest max_headline_size c _ h lacks (omega arith),
      retrieve-Holds (status_line ++ b'\r' ∷ b'\n' ∷ []) rest h refl,
    )
