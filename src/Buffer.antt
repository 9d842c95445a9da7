-- ===== src/Buffer.antt =====
-- net/buffer.h and net/buffer.cpp: a growing byte store with a read and a write index, a second
-- store `extra` that is only ever sent, and views into the first one.
-- `storage` is `_data` with `_data.size()` elements. Indices are `size_t`. Forming a pointer is
-- free; a read or a write through it outside the storage is a fault.
pub mod Contents
pub mod Append
pub mod Search
pub mod Packed
pub mod View
pub mod Socket
use small_rpc.Prelude.{
  ℕ, suc, zero, ◌+◌, ◌-◌, ◌*◌, ◌%◌, ◌^◌, Bool, true, false, ◌&&◌, List, [], ◌∷◌, ◌++◌, Option, none,
  some, Bytes, length, take, drop, replicate, leb, ltb, ◌==◌, if◌then◌else◌, add64, sub64, ℤ, pos,
  negsuc, int_of, ltb_ℤ, be_bytes, be_word, Run, returns, fault, ◌>>=◌, in_bounds,
}

pub record Buffer : Type 0 where
  pub rindex : ℕ
  pub windex : ℕ
  pub storage : Bytes
  pub extra_index : ℕ
  pub extra_data : Bytes

abbrev pub initial_buffer_size : ℕ
initial_buffer_size = 1024

-- `Buffer(size_t buf_size)`; the vector's elements are zero.
unfoldable pub new_sized : ℕ → Buffer
new_sized n = record {
  rindex = 0;
  windex = 0;
  storage = replicate n 0;
  extra_index = 0;
  extra_data = [];
}

-- `Buffer()`
unfoldable pub new : Buffer
new = new_sized initial_buffer_size

unfoldable pub readable : Buffer → ℕ
readable b = sub64 b.windex b.rindex

unfoldable pub writeable : Buffer → ℕ
writeable b = sub64 (length b.storage) b.windex

unfoldable pub extraable : Buffer → ℕ
extraable b = sub64 (length b.extra_data) b.extra_index

-- The bytes `[from, from + n)` of a memory block.
unfoldable pub read_range : Bytes → ℕ → ℕ → Run Bytes
read_range mem from n = in_bounds (leb (from + n) (length mem)) (take n (drop from mem))

-- `memcpy(&mem[at], src, n)` with the `n` bytes of `src` given.
unfoldable pub write_at : Bytes → ℕ → Bytes → Run Bytes
write_at mem at src =
    in_bounds (leb (at + length src) (length mem))
      (take at mem ++ (src ++ drop (at + length src) mem))

-- `_data.resize(_data.size() * 2)`: the new elements are zero.
unfoldable pub double : Bytes → Bytes
double mem = mem ++ replicate (length mem) 0

-- `peek_uint32`, and `peek_int32`, whose result is the same bit pattern.
unfoldable pub peek_uint32 : Buffer → Run ℕ
peek_uint32 b = do word ← read_range b.storage b.rindex 4; returns (be_word word)

unfoldable pub retrieve : ℕ → Buffer → Buffer
retrieve n b = record b { rindex = add64 b.rindex n }

-- `_append` behind its casts: `memcpy` takes a negative count as a huge one.
unfoldable pub copy_in : Buffer → Bytes → Bytes → ℤ → Run Buffer
copy_in b grown mem (pos n) = do
  stored ← write_at grown b.windex (take n mem)
  returns (record b { storage = stored; windex = add64 b.windex n })
copy_in b grown mem (negsuc n) = fault

-- `_append`. The storage is doubled at most once.
unfoldable pub append_mem : Buffer → Bytes → Run Buffer
append_mem b mem =
    let memlen = int_of (length mem) in
    let short = ltb_ℤ (int_of (writeable b)) memlen in
    copy_in b (if short then double b.storage else b.storage) mem memlen

-- What `strlen` leaves of a text.
unfoldable pub c_string : Bytes → Bytes
c_string [] = []
c_string (c ∷ s) = if c == 0 then [] else c ∷ c_string s

-- `append(const char*)`
unfoldable pub append_chars : Buffer → Bytes → Run Buffer
append_chars b str = append_mem b (c_string str)

-- `append(const std::string&)`
unfoldable pub append_string : Buffer → Bytes → Run Buffer
append_string b str = append_mem b str

-- `append(int32_t)` and `append(uint32_t)`, on the bit pattern.
unfoldable pub append_uint32 : Buffer → ℕ → Run Buffer
append_uint32 b num = append_mem b (be_bytes num)

-- `append_extra`, of a copied and of a moved string.
unfoldable pub append_extra : Buffer → Bytes → Buffer
append_extra b extra = record b { extra_data = extra }

-- `_extra_data` is left as it was.
unfoldable pub clear : Buffer → Buffer
clear b = record b { rindex = 0; windex = 0; extra_index = 0 }

-- An offset counted from one byte further to the left.
abbrev pub one_later : Option ℕ → Option ℕ
one_later none = none
one_later (some i) = some (suc i)

-- The first "\r\n" of a text: `memmem`.
unfoldable pub find_pair : Bytes → Option ℕ
find_pair [] = none
find_pair (c ∷ []) = none
find_pair (c ∷ d ∷ s) =
    let later = find_pair (d ∷ s) in if c == b'\r' && d == b'\n' then some 0 else one_later later

-- `find_crlf`; `none` is -1. The cast of the offset to `int` is exact for the lengths up to 65536
-- with which it is called.
unfoldable pub find_crlf : Buffer → ℕ → Run (Option ℕ)
find_crlf b len = do text ← read_range b.storage b.rindex len; returns (find_pair text)

-- `memchr(&mem[from], c, n)` on the memory from there on: it reads up to the first hit.
unfoldable pub scan_chr : ℕ → ℕ → Bytes → Run (Option ℕ)
scan_chr c zero mem = returns none
scan_chr c (suc n) [] = fault
scan_chr c (suc n) (x ∷ mem) =
    let later = scan_chr c n mem in
    if x == c then returns (some 0) else (later >>= λ r. returns (one_later r))

unfoldable pub mem_chr : Bytes → ℕ → ℕ → ℕ → Run (Option ℕ)
mem_chr mem from c n = scan_chr c n (drop from mem)

-- A view: `is_bound` tells a view of a buffer from the default one, whose pointer is null.
pub record BufferView : Type 0 where
  pub is_bound : Bool
  pub first : ℕ
  pub last : ℕ

unfoldable pub null_view : BufferView
null_view = record { is_bound = false; first = 0; last = 0 }

-- `BufferView(buf, length)`
unfoldable pub view_here : Buffer → ℕ → BufferView
view_here b n = record { is_bound = true; first = b.rindex; last = add64 b.rindex n }

-- `BufferView(buf, begin, length)`, where the pointer is `buf.data() + at`.
unfoldable pub view_at : ℕ → ℕ → BufferView
view_at at n = record { is_bound = true; first = at; last = add64 at n }

unfoldable pub view_size : BufferView → ℕ
view_size v = sub64 v.last v.first

-- `str()`, given the buffer that the view points to as it is now. A range that ends before it
-- starts is refused by `std::string`.
unfoldable pub view_str : BufferView → Buffer → Run Bytes
view_str v b =
    if v.is_bound
    then (if leb v.first v.last then read_range b.storage v.first (v.last - v.first) else fault)
    else returns []
