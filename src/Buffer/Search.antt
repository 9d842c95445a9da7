-- ===== src/Buffer/Search.antt =====
-- `memchr` and `memmem` on the queue of a buffer.
use small_rpc.Prelude.{
  ℕ, zero, suc, ◌<◌, ◌≡◌, arith, [], ◌∷◌, ◌++◌, append_assoc, Bytes, length, Lacks, some,
  drop-append, returns, ==_refl, ne→==,
}
use small_rpc.Buffer.{Buffer, scan_chr, mem_chr}
use small_rpc.Buffer.Contents.{Holds}

-- The first hit, if it lies within the bytes to look at.
pub scan_chr-append :
    (c n : ℕ) (xs ys : Bytes)
    → Lacks c xs
    → length xs < n
    → scan_chr c n (xs ++ c ∷ ys) ≡ returns (some (length xs))
unfolding scan_chr
scan_chr-append c zero xs ys l h = absurd (omega arith)
scan_chr-append c (suc n) [] ys l h = rw (==_refl c)
scan_chr-append c (suc n) (x ∷ xs) ys l h =
    rw (ne→== x c l.0, scan_chr-append c n xs ys l.1 (omega arith))

pub mem_chr-Holds :
    {b : Buffer} (c n : ℕ) (xs ys : Bytes)
    → Holds b (xs ++ c ∷ ys)
    → Lacks c xs
    → length xs < n
    → mem_chr b.storage b.rindex c n ≡ returns (some (length xs))
unfolding mem_chr
mem_chr-Holds {b} c n xs ys h l in_reach =
    rw (h.splits, drop-append b.rindex h.dead ((xs ++ c ∷ ys) ++ h.room) h.starts, append_assoc)
      (scan_chr-append c n xs (ys ++ h.room) l in_reach)
