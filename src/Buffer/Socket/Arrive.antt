-- ===== src/Buffer/Socket/Arrive.antt =====
-- What `read_fd` adds to the queue.
use small_rpc.Prelude.{
  ℕ, ◌^◌, ◌≤◌, ◌<◌, ◌≡◌, ◌∙◌, inl, inr, ap, length-replicate, replicate, if◌then◌else◌, refl,
  Bool-cases, ◌++◌, append_assoc, arith, Bytes, length, length-append, returns, drop, length-drop,
  int_of, add64, ◌==◌, ◌≢◌, ne→==, ◌+◌, [], ◌∷◌,
}
use small_rpc.Buffer.{Buffer, writeable, double}
use small_rpc.Buffer.Contents.{Holds, Holds-bounds}
use small_rpc.Buffer.Append.{write_at-append, length-double}
use small_rpc.Buffer.Socket.{came, Received, store_arrival, read_fd}

store_kept :
    {b : Buffer} {live : Bytes} (bytes : Bytes) (h : Holds b live)
    → length bytes ≤ length h.room
    → (r : Received) × (store_arrival b (came bytes) ≡ returns r)
      × (r.code ≡ int_of (length bytes))
      × Holds r.buffer (live ++ bytes)
      × (r.buffer.windex ≡ b.windex + length bytes)
      × (length r.buffer.storage ≡ length b.storage)
unfolding store_arrival
store_kept {b} {live} bytes h fits =
    let before : Bytes = h.dead ++ live in
    let left : Bytes = drop (length bytes) h.room in
    let at_end : b.windex ≡ length before = omega (arith, h.ends, length-append h.dead live) in
    let regroup : b.storage ≡ before ++ h.room = h.splits ∙ simp append_assoc in
    let size : length (before ++ (bytes ++ left)) ≡ length b.storage = omega (
      arith,
      ap length regroup,
      length-append before h.room,
      length-append before (bytes ++ left),
      length-append bytes left,
      length-drop (length bytes) h.room,
    ) in
    (
      record {
        code = int_of (length bytes);
        buffer = record b {
          storage = before ++ (bytes ++ left);
          windex = add64 b.windex (length bytes);
        };
      },
      rw regroup (rw (write_at-append before h.room bytes at_end fits)),
      refl,
      record {
        dead = h.dead;
        room = left;
        splits = simp append_assoc;
        starts = h.starts;
        ends = omega (arith, h.ends, length-append live bytes, Holds-bounds h, fits);
        fits = omega (arith, size, h.fits);
      },
      omega (arith, Holds-bounds h, fits),
      size,
    )

store-Holds :
    {b : Buffer} {live : Bytes} (bytes : Bytes) (h : Holds b live)
    → length bytes ≤ length h.room
    → (r : Received) × (store_arrival b (came bytes) ≡ returns r)
      × (r.code ≡ int_of (length bytes))
      × Holds r.buffer (live ++ bytes)
store-Holds bytes h fits =
    let (r, run, code, holds, _, _) = store_kept bytes h fits in (r, run, code, holds)

double-Holds :
    {b : Buffer} {live : Bytes}
    → Holds b live
    → length b.storage < 2 ^ 62
    → (h' : Holds (record b { storage = double b.storage }) live) × (length b.storage
        ≤ length h'.room)
double-Holds {b} h small = (
  record {
    dead = h.dead;
    room = h.room ++ replicate (length b.storage) 0;
    splits =
        unfold double in ap (λ m. m ++ replicate (length b.storage) 0) h.splits ∙ simp append_assoc;
    starts = h.starts;
    ends = h.ends;
    fits = omega (arith, length-double b.storage);
  },
  omega (
    arith,
    length-append h.room (replicate (length b.storage) 0),
    length-replicate {0} {A = ℕ} (length b.storage) 0,
  ),
)

roomy_fits :
    {b : Buffer} {live : Bytes} (bytes : Bytes) (h : Holds b live)
    → length bytes ≤ writeable b
    → length bytes ≤ length h.room
unfolding writeable
roomy_fits bytes h fits = omega (arith, Holds-bounds h)

full_store :
    {b : Buffer} {live : Bytes} (bytes : Bytes)
    → Holds b live
    → length b.storage < 2 ^ 62
    → length bytes ≤ length b.storage
    → (r : Received) × (store_arrival (record b { storage = double b.storage }) (came bytes)
        ≡ returns r)
      × (r.code ≡ int_of (length bytes))
      × Holds r.buffer (live ++ bytes)
full_store bytes h small fits =
    let (h', room) = double-Holds h small in store-Holds bytes h' (omega (arith, room))

-- Whatever arrives that fits the room which `read_fd` offers is added to the end of the queue, and its
-- length is the result; a full storage, of fewer than 2 ^ 62 bytes, offers as much again.
pub read_fd-Holds :
    {b : Buffer} {live : Bytes} (bytes : Bytes)
    → Holds b live
    → length b.storage < 2 ^ 62
    → length bytes ≤ (if writeable b == 0 then length b.storage else writeable b)
    → (r : Received) × (read_fd b (came bytes) ≡ returns r)
      × (r.code ≡ int_of (length bytes))
      × Holds r.buffer (live ++ bytes)
unfolding read_fd
read_fd-Holds {b} {live} bytes h small fits = elim (Bool-cases (writeable b == 0)) [
  | inl full ↦ rw full (full_store bytes h small (rw full at fits))
  | inr roomy ↦ rw roomy (store-Holds bytes h (roomy_fits bytes h (rw roomy at fits)))
]

-- Bytes that fit behind the write index are added in place.
pub read_fd_roomy :
    {b : Buffer} {live : Bytes} (bytes : Bytes)
    → Holds b live
    → bytes ≢ []
    → b.windex + length bytes ≤ length b.storage
    → (r : Received) × (read_fd b (came bytes) ≡ returns r)
      × Holds r.buffer (live ++ bytes)
      × (r.buffer.windex ≡ b.windex + length bytes)
      × (length r.buffer.storage ≡ length b.storage)
unfolding read_fd
read_fd_roomy [] h some_bytes fits = absurd (some_bytes refl)
read_fd_roomy {b} (x ∷ bytes) h some_bytes fits =
    let room : writeable b ≢ 0 = unfold writeable in omega (arith, Holds-bounds h) in
    let (r, run, _, holds, moved, same) =
      store_kept (x ∷ bytes) h (omega (arith, Holds-bounds h)) in
    (r, rw (ne→== (writeable b) 0 room) run, holds, moved, same)
