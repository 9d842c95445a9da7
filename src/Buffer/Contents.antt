-- ===== src/Buffer/Contents.antt =====
-- The queue of bytes that a buffer stands for.
use small_rpc.Prelude.{
  ltb, false, le→ltb, ℕ, take, drop, ◌-◌, ◌+◌, ◌^◌, ◌≤◌, ◌<◌, ◌≡◌, refl, ap, ◌∙◌, [], ◌++◌,
  append_assoc, arith, Bytes, length, length-append, take-append, drop-append, length-replicate,
  le→leb, be_bytes, be_word-be_bytes, length-be_bytes, replicate, returns,
}
use small_rpc.Buffer.{Buffer, readable, retrieve, read_range, peek_uint32, new, new_sized, clear}

-- The storage splits into bytes that were read, the queue `live`, and room behind it.
pub record Holds (b : Buffer) (live : Bytes) : Type 0 where
  pub dead : Bytes
  pub room : Bytes
  pub splits : b.storage ≡ dead ++ (live ++ room)
  pub starts : b.rindex ≡ length dead
  pub ends : b.windex ≡ length dead + length live
  pub fits : length b.storage < 2 ^ 63

pub Holds-bounds :
    {b : Buffer} {live : Bytes} (h : Holds b live)
    → (b.windex ≡ b.rindex + length live)
      × (b.windex + length h.room ≡ length b.storage)
      × (length b.storage < 2 ^ 63)
Holds-bounds {b} {live} h = omega (
  arith,
  h.starts,
  h.ends,
  h.fits,
  ap length h.splits,
  length-append h.dead (live ++ h.room),
  length-append live h.room,
)

pub readable-Holds : {b : Buffer} {live : Bytes} → Holds b live → readable b ≡ length live
unfolding readable
readable-Holds h = omega (arith, Holds-bounds h)

-- A read between two joints of the memory.
pub read_range-append :
    (before xs after : Bytes) {at n : ℕ}
    → at ≡ length before
    → n ≡ length xs
    → read_range (before ++ (xs ++ after)) at n ≡ returns xs
unfolding read_range
read_range-append before xs after {at} {n} e k =
    let room : at + n ≤ length (before ++ (xs ++ after)) =
      omega (arith, length-append before (xs ++ after), length-append xs after) in
    rw (le→leb _ _ room, drop-append at before (xs ++ after) e)
      (ap returns (take-append n xs after k))

-- Reading within the queue, from its head.
pub read_range-Holds :
    {b : Buffer} (xs rest : Bytes) {n : ℕ}
    → Holds b (xs ++ rest)
    → n ≡ length xs
    → read_range b.storage b.rindex n ≡ returns xs
read_range-Holds {b} xs rest h k =
    rw (h.splits, append_assoc xs rest h.room)
      (read_range-append h.dead xs (rest ++ h.room) h.starts k)

-- Retrieving drops bytes off the head of the queue.
pub retrieve-Holds :
    {b : Buffer} (xs rest : Bytes) {n : ℕ}
    → Holds b (xs ++ rest)
    → n ≡ length xs
    → Holds (retrieve n b) rest
unfolding retrieve
retrieve-Holds {b} xs rest {n} h k = record {
  dead = h.dead ++ xs;
  room = h.room;
  splits = h.splits ∙ simp append_assoc;
  starts = omega (arith, h.starts, length-append h.dead xs, Holds-bounds h, length-append xs rest);
  ends = omega (arith, h.ends, length-append h.dead xs, length-append xs rest);
  fits = h.fits;
}

-- The number in network order at the head of the queue.
pub peek_uint32-Holds :
    {b : Buffer} (w : ℕ) (rest : Bytes)
    → w < 2 ^ 32
    → Holds b (be_bytes w ++ rest)
    → peek_uint32 b ≡ returns w
unfolding peek_uint32
peek_uint32-Holds {b} w rest small h =
    rw (read_range-Holds (be_bytes w) rest h (length-be_bytes w))
      (ap returns (be_word-be_bytes w small))

-- A fresh and a cleared buffer hold nothing.
pub new-Holds : Holds new []
unfolding new new_sized
new-Holds = record {
  dead = [];
  room = replicate 1024 0;
  splits = refl;
  starts = refl;
  ends = omega arith;
  fits = omega (arith, length-replicate {0} {A = ℕ} 1024 0);
}

pub clear-Holds : {b : Buffer} {live : Bytes} → Holds b live → Holds (clear b) []
unfolding clear
clear-Holds {b} h = record {
  dead = [];
  room = b.storage;
  splits = refl;
  starts = refl;
  ends = omega arith;
  fits = h.fits;
}

-- A number in network order at the head of the queue: it is there, it is read, and retrieving it
-- uncovers what follows.
pub word-Holds :
    {b : Buffer} (w : ℕ) (rest : Bytes)
    → w < 2 ^ 32
    → Holds b (be_bytes w ++ rest)
    → (readable b ≡ 4 + length rest)
      × (ltb (readable b) 4 ≡ false)
      × (peek_uint32 b ≡ returns w)
      × Holds (retrieve 4 b) rest
word-Holds {b} w rest small h = (
  there,
  le→ltb (readable b) 4 (omega (arith, there)),
  peek_uint32-Holds w rest small h,
  retrieve-Holds (be_bytes w) rest h (length-be_bytes w),
)
  where
    there : readable b ≡ 4 + length rest
    there = omega (arith, readable-Holds h, length-append (be_bytes w) rest, length-be_bytes w)

-- The queue as a list, and all that `write_fd` has to send: the queue, then the extra data.
unfoldable pub contents : Buffer → Bytes
contents b = take (b.windex - b.rindex) (drop b.rindex b.storage)

unfoldable pub outgoing : Buffer → Bytes
unfolding contents
outgoing b = contents b ++ drop b.extra_index b.extra_data

pub contents-Holds : {b : Buffer} {live : Bytes} → Holds b live → contents b ≡ live
unfolding contents
contents-Holds {b} {live} h =
    rw (h.splits, drop-append b.rindex h.dead (live ++ h.room) h.starts)
      (take-append (b.windex - b.rindex) live h.room (omega (arith, h.starts, h.ends)))
