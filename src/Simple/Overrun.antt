-- ===== src/Simple/Overrun.antt =====
-- The test of `_stage == 2` of `parse_request` counts the four bytes of the length as path bytes.
use small_rpc.Prelude.{
  some, append-nil, ℕ, ◌+◌, ◌-◌, ◌^◌, ◌≤◌, ◌<◌, ◌≡◌, ◌≢◌, ◌∙◌, refl, [], ◌∷◌, ◌++◌, append_assoc,
  arith, Bytes, length, length-append, returns, be_bytes, le→ltb, Lacks, length-be_bytes,
}
use small_rpc.Buffer.{Buffer, readable, retrieve, peek_uint32, read_range, mem_chr}
use small_rpc.Buffer.Contents.{Holds, word-Holds, readable-Holds, read_range-Holds, Holds-bounds}
use small_rpc.Buffer.Search.{mem_chr-Holds}
use small_rpc.Simple.{SimpleContext, go_on, parse_path, take_path, split_path}
use small_rpc.Simple.Parse.{method_read}

-- The same storage, with the bytes `stale` behind the queue counted in.
stretch : Buffer → Bytes → Buffer
stretch b stale = record b { windex = b.windex + length stale }

stretch-Holds :
    {b : Buffer} {live : Bytes} (stale more : Bytes) (h : Holds b live)
    → h.room ≡ stale ++ more
    → Holds (stretch b stale) (live ++ stale)
unfolding stretch
stretch-Holds {b} {live} stale more h e = record {
  dead = h.dead;
  room = more;
  splits = h.splits ∙ rw e (simp append_assoc);
  starts = h.starts;
  ends = omega (arith, h.ends, length-append live stale);
  fits = h.fits;
}

-- A request whose path has not all arrived: one to four bytes of it are missing, `stale` stands in the
-- storage in their place, and the slash behind the service is there. The round of the path does not
-- wait for them: it takes `stale` for the end of the method and leaves the read index behind the write
-- index by as many bytes, so that `readable` is 2 ^ 64 less their number.
pub parse_path_overrun :
    (c : SimpleContext) {b : Buffer} (service method stale more : Bytes)
    (h : Holds b
      (be_bytes (length service + 1 + length method + length stale) ++ (service ++ b'/' ∷ method)))
    → h.room ≡ stale ++ more
    → Lacks b'/' service
    → stale ≢ []
    → length stale ≤ 4
    → length service + 1 + length method + length stale < 2 ^ 32
    → (b' : Buffer) × (parse_path c b
        ≡ returns (
            go_on
              (record {
                base = record c.base { service = service; method = method ++ stale };
                stage = 3;
              })
              b'))
      × (b'.rindex ≡ b'.windex + length stale)
      × (readable b' ≡ 2 ^ 64 - length stale)
unfolding parse_path take_path split_path stretch
parse_path_overrun c {b} service method stale more h e no_slash some_stale few small =
    let n : ℕ = length service + 1 + length method + length stale in
    let path : Bytes = service ++ b'/' ∷ method in
    let regroup : (be_bytes n ++ path) ++ stale
        ≡ be_bytes n ++ (service ++ b'/' ∷ (method ++ stale)) =
      simp append_assoc in
    let long : Holds (stretch b stale) (be_bytes n ++ (service ++ b'/' ∷ (method ++ stale))) =
      rw regroup at (stretch-Holds stale more h e) in
    let (_, _, word, after) = word-Holds n (service ++ b'/' ∷ (method ++ stale)) small long in
    let size : readable b ≡ 4 + (length service + 1 + length method) = omega (
      arith,
      readable-Holds h,
      length-append (be_bytes n) path,
      length-be_bytes n,
      length-append service (b'/' ∷ method),
    ) in
    let rest : Buffer = retrieve 4 b in
    let word' : peek_uint32 b ≡ returns n = unfold peek_uint32 in word in
    let found : mem_chr rest.storage rest.rindex b'/' n ≡ returns (some (length service)) =
      unfold retrieve in
      mem_chr-Holds b'/' n service (method ++ stale) after no_slash (omega arith) in
    let first : read_range rest.storage rest.rindex (length service) ≡ returns service =
      unfold retrieve in read_range-Holds service (b'/' ∷ (method ++ stale)) after refl in
    let left : n - 1 - length service ≡ length (method ++ stale) =
      omega (arith, length-append method stale) in
    let second : read_range rest.storage (rest.rindex + length service + 1)
          (length (method ++ stale))
        ≡ returns (method ++ stale) =
      unfold retrieve in
      method_read {b = retrieve 4 (stretch b stale)} service (method ++ stale) []
        (rw append-nil after) in
    let bounds = Holds-bounds h in
    let some_length : 0 < length stale = ground (arith, some_stale) in
    let passed : (retrieve n rest).rindex ≡ (retrieve n rest).windex + length stale =
      unfold retrieve in omega (arith, bounds, size, readable-Holds h) in
    (
      retrieve n rest,
      rw (le→ltb (readable b) 4 (omega (arith, size)), word')
          (rw (le→ltb (readable b) n (omega (arith, size)), found) (rw (first, left, second))),
      passed,
      unfold readable in omega (arith, passed, bounds, some_length),
    )
