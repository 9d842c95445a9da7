-- ===== src/Buffer/Packed.antt =====
-- A row of appends to one buffer.
use small_rpc.Prelude.{
  List, ◌∷◌, ◌⊎◌, inl, Run, ◌>>=◌, ◌+◌, ◌*◌, ◌^◌, ◌≤◌, ◌<◌, ◌≡◌, ◌∙◌, refl, [], ◌++◌, append_assoc,
  append-nil, arith, Bytes, length, length-append, returns, ap,
}
use small_rpc.Buffer.{Buffer, append_mem, append_extra}
use small_rpc.Buffer.Append.{append_mem-Holds, Sized-small}
use small_rpc.Buffer.Contents.{Holds, contents, outgoing, contents-Holds}

-- Appends of the pieces of a list, and then `next`.
abbrev pub append_then {ℓ} : {A : Type ℓ} → List Bytes → (Buffer → Run A) → Buffer → Run A
append_then [] next b = next b
append_then (mem ∷ pieces) next b = append_mem b mem >>= append_then pieces next

abbrev pub join : List Bytes → Bytes
join [] = []
join (mem ∷ pieces) = mem ++ join pieces

-- `b` is what appends of `out` in all made of `start`, which held `live`.
pub record Packed (start : Buffer) (live : Bytes) (out : Bytes) (b : Buffer) : Type 0 where
  pub holds : Holds b (live ++ out)
  pub windex_moved : b.windex ≡ start.windex + length out
  pub extra_index_kept : b.extra_index ≡ start.extra_index
  pub sized :
      (length b.storage ≡ length start.storage) ⊎ (length b.storage ≡ 2 * length start.storage)

module _ {start : Buffer} {live : Bytes} (small : length start.storage < 2 ^ 30) where
  Packed-more :
      {b : Buffer} {out : Bytes} (mem : Bytes)
      → Packed start live out b
      → start.windex + length out + length mem ≤ 2 * length start.storage
      → (b' : Buffer) × (append_mem b mem ≡ returns b') × Packed start live (out ++ mem) b'
  Packed-more {b} {out} mem p enough =
      let (b', done, holds, appended) =
        append_mem-Holds mem p.holds (omega arith) (omega (arith, p.sized))
          (omega (arith, p.windex_moved, p.sized)) in
      let size = Sized-small b mem (length b'.storage) (omega (arith, p.sized)) appended.sized in
      (
        b',
        done,
        record {
          holds = rw (← append_assoc live out mem) holds;
          windex_moved =
              omega (arith, appended.windex_moved, p.windex_moved, length-append out mem);
          extra_index_kept = appended.extra_index_kept ∙ p.extra_index_kept;
          sized = omega (arith, size, p.sized, p.windex_moved);
        },
      )

  -- All pieces are stored, as long as they fit twice the first storage.
  Packed-all {ℓ} :
      {A : Type ℓ} (pieces : List Bytes) {b : Buffer} {out : Bytes} (next : Buffer → Run A)
      → Packed start live out b
      → start.windex + length out + length (join pieces) ≤ 2 * length start.storage
      → (b' : Buffer) × (append_then pieces next b ≡ next b')
        × Packed start live (out ++ join pieces) b'
  Packed-all [] {b} next p enough = (b, refl, rw append-nil p)
  Packed-all (mem ∷ pieces) {b} {out} next p enough =
      let total = length-append mem (join pieces) in
      let (b1, first, p1) = Packed-more mem p (omega (arith, total)) in
      let (b2, later, p2) =
        Packed-all pieces next p1 (omega (arith, total, length-append out mem)) in
      (b2, rw first later, rw append_assoc at p2)

pub append_then-Packed {ℓ} :
    {A : Type ℓ} {b : Buffer} {live : Bytes} (pieces : List Bytes) (next : Buffer → Run A)
    → Holds b live
    → length b.storage < 2 ^ 30
    → b.windex + length (join pieces) ≤ 2 * length b.storage
    → (b' : Buffer) × (append_then pieces next b ≡ next b') × Packed b live (join pieces) b'
append_then-Packed {b = b} {live} pieces next h small enough =
    Packed-all small pieces {out = []} next
      (record {
        holds = rw append-nil h;
        windex_moved = omega arith;
        extra_index_kept = refl;
        sized = inl refl;
      })
      (omega arith)

-- What is sent once the extra data is there too.
pub outgoing-append_extra :
    {start b : Buffer} {live out : Bytes} (extra : Bytes)
    → Packed start live out b
    → start.extra_index ≡ 0
    → outgoing (append_extra b extra) ≡ (live ++ out) ++ extra
unfolding outgoing append_extra contents
outgoing-append_extra {start} {b} extra p e =
    rw (p.extra_index_kept, e) (ap (λ x. x ++ extra) (contents-Holds p.holds))
