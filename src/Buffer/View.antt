-- ===== src/Buffer/View.antt =====
-- `BufferView`: what a view of a buffer reads later on.
use small_rpc.Prelude.{
  ℕ, ◌+◌, ◌-◌, ◌≡◌, ◌++◌, arith, Bytes, length, length-append, le→leb, returns, add64,
}
use small_rpc.Buffer.{Buffer, view_here, view_str}
use small_rpc.Buffer.Contents.{Holds, Holds-bounds, read_range-Holds}

-- A view of bytes at the head of the queue reads them from any buffer with the same storage, wherever
-- its indices are.
pub view_str-Holds :
    {b : Buffer} (b' : Buffer) (xs rest : Bytes) {n : ℕ}
    → Holds b (xs ++ rest)
    → n ≡ length xs
    → b'.storage ≡ b.storage
    → view_str (view_here b n) b' ≡ returns xs
unfolding view_str view_here
view_str-Holds {b} b' xs rest {n} h k same =
    let exact : add64 b.rindex n ≡ b.rindex + n =
      omega (arith, Holds-bounds h, length-append xs rest) in
    let size : (b.rindex + n) - b.rindex ≡ n = omega arith in
    rw (exact, le→leb b.rindex (b.rindex + n) (omega arith), size, same)
      (read_range-Holds xs rest h k)
