-- ===== src/Buffer/Append.antt =====
-- `Buffer::_append`: what it stores, and when it runs past the storage.
use small_rpc.Prelude.{
  ◌-◌, ◌⊎◌, true, ℕ, ◌+◌, ◌*◌, ◌^◌, ◌≤◌, ◌<◌, ◌≡◌, refl, ap, sym, inl, inr, [], ◌++◌, append_assoc,
  append-nil, arith, Bytes, false, Bool-cases, length, drop, length-append, take-append, drop_past,
  length-replicate, le→leb, lt→leb, length-drop, take_all, int_of, pos, ltb_ℤ, replicate,
  int_of_small, add64, returns, fault,
}
use small_rpc.Buffer.{Buffer, writeable, write_at, double, copy_in, append_mem}
use small_rpc.Buffer.Contents.{Holds, Holds-bounds}

pub write_at-append :
    (before room src : Bytes) {at : ℕ}
    → at ≡ length before
    → length src ≤ length room
    → write_at (before ++ room) at src ≡ returns (before ++ (src ++ drop (length src) room))
unfolding write_at
write_at-append before room src {at} e h =
    let inside : at + length src ≤ length (before ++ room) =
      omega (arith, length-append before room) in
    rw (
      le→leb _ _ inside,
      take-append at before room e,
      drop_past (at + length src) (length src) before room (omega arith),
    )

pub length-double : (mem : Bytes) → length (double mem) ≡ 2 * length mem
unfolding double
length-double mem = omega (
  arith,
  length-append mem (replicate (length mem) 0),
  length-replicate {0} {A = ℕ} (length mem) 0,
)

-- The storage stays, or is doubled, and an ordinary one is doubled only for want of room.
abbrev pub Sized : Buffer → Bytes → ℕ → Type 0
Sized b mem size =
    (size ≡ length b.storage)
    ⊎ ((size ≡ 2 * length b.storage)
        × (length b.storage < 2 ^ 31 → length b.storage < b.windex + length mem))

pub Sized-small :
    (b : Buffer) (mem : Bytes) (size : ℕ)
    → length b.storage < 2 ^ 31
    → Sized b mem size
    → (size ≡ length b.storage)
      ⊎ ((size ≡ 2 * length b.storage) × (length b.storage < b.windex + length mem))
Sized-small b mem size small (inl same) = inl same
Sized-small b mem size small (inr (doubled, why)) = inr (doubled, why small)

-- What an append of `mem` leaves of the buffer `b`.
pub record Appended (b : Buffer) (mem : Bytes) (b' : Buffer) : Type 0 where
  pub rindex_kept : b'.rindex ≡ b.rindex
  pub windex_moved : b'.windex ≡ b.windex + length mem
  pub extra_index_kept : b'.extra_index ≡ b.extra_index
  pub extra_data_kept : b'.extra_data ≡ b.extra_data
  pub grows : length b.storage ≤ length b'.storage
  pub sized : Sized b mem (length b'.storage)

-- Copying into a storage that begins with the old one.
copy_in-Holds :
    {b : Buffer} {live : Bytes} (grown more mem : Bytes)
    → Holds b live
    → grown ≡ b.storage ++ more
    → b.windex + length mem ≤ length (b.storage ++ more)
    → length (b.storage ++ more) < 2 ^ 63
    → Sized b mem (length (b.storage ++ more))
    → (b' : Buffer) × (copy_in b grown mem (pos (length mem)) ≡ returns b')
      × Holds b' (live ++ mem)
      × Appended b mem b'
unfolding copy_in
copy_in-Holds {b} {live} grown more mem h extends inside small sized =
    let before : Bytes = h.dead ++ live in
    let room : Bytes = h.room ++ more in
    let left : Bytes = drop (length mem) room in
    let regroup : b.storage ++ more ≡ before ++ room = rw h.splits (simp append_assoc) in
    let at_end : b.windex ≡ length before = omega (arith, h.ends, length-append h.dead live) in
    let enough : length mem ≤ length room =
      omega (arith, Holds-bounds h, length-append b.storage more, length-append h.room more) in
    let same_length : length (before ++ (mem ++ left)) ≡ length (b.storage ++ more) = omega (
      arith,
      ap length regroup,
      length-append before room,
      length-append before (mem ++ left),
      length-append mem left,
      length-drop (length mem) room,
    ) in
    let moved : add64 b.windex (length mem) ≡ b.windex + length mem = omega arith in
    (
      record b { storage = before ++ (mem ++ left); windex = add64 b.windex (length mem) },
      rw (take_all (length mem) mem (omega arith), extends, regroup)
          (rw (write_at-append before room mem at_end enough)),
      record {
        dead = h.dead;
        room = left;
        splits = simp append_assoc;
        starts = h.starts;
        ends = omega (arith, moved, h.ends, length-append live mem);
        fits = omega (arith, same_length);
      },
      record {
        rindex_kept = refl;
        windex_moved = moved;
        extra_index_kept = refl;
        extra_data_kept = refl;
        grows = omega (arith, same_length, length-append b.storage more);
        sized = rw same_length sized;
      },
    )

-- The comparison of the two casts says no only where there is room.
roomy-le : (w n : ℕ) → n < 2 ^ 31 → ltb_ℤ (int_of w) (pos n) ≡ false → n ≤ w
roomy-le w n h e = ground arith

tight-lt : (w n : ℕ) → w < 2 ^ 31 → ltb_ℤ (int_of w) (pos n) ≡ true → w < n
tight-lt w n h e = ground arith

module _ {b : Buffer} {live : Bytes} (mem : Bytes) (h : Holds b live) where
  tight-lt-length :
      length b.storage < 2 ^ 31
      → ltb_ℤ (int_of (writeable b)) (pos (length mem)) ≡ true
      → length mem < 2 ^ 31
      → length b.storage < b.windex + length mem
  unfolding writeable
  tight-lt-length few tight short =
      let space : writeable b ≡ length b.storage - b.windex = omega (arith, Holds-bounds h) in
      let lack : writeable b < length mem =
        tight-lt (writeable b) (length mem) (omega (arith, space)) tight in
      omega (arith, space, lack)

  append_doubled :
      ltb_ℤ (int_of (writeable b)) (pos (length mem)) ≡ true
      → length mem < 2 ^ 31
      → length b.storage < 2 ^ 62
      → b.windex + length mem ≤ 2 * length b.storage
      → (b' : Buffer) × (copy_in b (double b.storage) mem (pos (length mem)) ≡ returns b')
        × Holds b' (live ++ mem)
        × Appended b mem b'
  append_doubled tight short small enough =
      let zeros : Bytes = replicate (length b.storage) 0 in
      let long : length (b.storage ++ zeros) ≡ 2 * length b.storage =
        unfold double in length-double b.storage in
      copy_in-Holds (double b.storage) zeros mem h (unfold double in refl) (omega (arith, long))
        (omega (arith, long)) (inr (long, λ few. tight-lt-length few tight short))

  append_in_place :
      ltb_ℤ (int_of (writeable b)) (pos (length mem)) ≡ false
      → length mem < 2 ^ 31
      → (b' : Buffer) × (copy_in b b.storage mem (pos (length mem)) ≡ returns b')
        × Holds b' (live ++ mem)
        × Appended b mem b'
  append_in_place full short =
      let space : length mem ≤ writeable b = roomy-le (writeable b) (length mem) short full in
      let long : length (b.storage ++ []) ≡ length b.storage = ap length (append-nil b.storage) in
      copy_in-Holds b.storage [] mem h (sym (append-nil b.storage))
        (unfold writeable in omega (arith, space, long, Holds-bounds h))
        (omega (arith, long, h.fits)) (inl long)

-- An append of fewer than 2 ^ 31 bytes to a storage of fewer than 2 ^ 62 does not fault if they fit
-- twice the storage behind the write index: the bytes then stand at the end of the queue, the other
-- indices and the extra data are as before, and the storage is the old one or twice as long.
pub append_mem-Holds :
    {b : Buffer} {live : Bytes} (mem : Bytes)
    → Holds b live
    → length mem < 2 ^ 31
    → length b.storage < 2 ^ 62
    → b.windex + length mem ≤ 2 * length b.storage
    → (b' : Buffer) × (append_mem b mem ≡ returns b') × Holds b' (live ++ mem) × Appended b mem b'
unfolding append_mem
append_mem-Holds {b} {live} mem h short small enough =
    let memlen = int_of_small (length mem) short in
    elim (Bool-cases (ltb_ℤ (int_of (writeable b)) (pos (length mem)))) [
      | inl tight ↦ rw (memlen, tight) (append_doubled mem h tight short small enough)
      | inr full ↦ rw (memlen, full) (append_in_place mem h full short)
    ]

copy_in_past :
    (b : Buffer) (grown mem : Bytes)
    → length grown < b.windex + length mem
    → copy_in b grown mem (pos (length mem)) ≡ fault
unfolding copy_in write_at
copy_in_past b grown mem h =
    rw (take_all (length mem) mem (omega arith), lt→leb (b.windex + length mem) (length grown) h)

-- One doubling is all that `_append` does: fewer than 2 ^ 31 bytes that do not fit twice the storage
-- behind the write index are copied past its end, which is a fault.
pub append_mem_overflow :
    (b : Buffer) (mem : Bytes)
    → length mem < 2 ^ 31
    → 2 * length b.storage < b.windex + length mem
    → append_mem b mem ≡ fault
unfolding append_mem
append_mem_overflow b mem short past =
    let memlen = int_of_small (length mem) short in
    elim (Bool-cases (ltb_ℤ (int_of (writeable b)) (pos (length mem)))) [
      | inl tight ↦
          rw (memlen, tight) (copy_in_past b _ mem (omega (arith, length-double b.storage)))
      | inr roomy ↦ rw (memlen, roomy) (copy_in_past b _ mem (omega arith))
    ]
