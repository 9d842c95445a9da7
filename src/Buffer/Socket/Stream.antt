-- ===== src/Buffer/Socket/Stream.antt =====
-- The stream of bytes that `write_fd` puts on the socket.
use small_rpc.Prelude.{
  ℕ, suc, ◌+◌, ◌^◌, ◌<◌, ◌≡◌, ◌≢◌, ◌∙◌, inl, inr, sym, ap, ap₂, ne→==, Run, drop-append, refl,
  Bool-cases, [], ◌∷◌, ◌++◌, append_assoc, append-nil, arith, Bytes, length, length-append, returns,
  drop, int_of, add64, ◌==◌,
}
use small_rpc.Buffer.{Buffer, retrieve, readable, extraable}
use small_rpc.Buffer.Contents.{
  Holds, outgoing, contents-Holds, readable-Holds, retrieve-Holds, read_range-Holds,
  read_range-append,
}
use small_rpc.Buffer.Socket.{
  try_again, broken_pipe, other_error, Answer, took, failed, Written, give_up, write_extra,
  maybe_write_extra, write_live, write_fd,
}

-- The extra data that is still to be sent.
pub record Extra (b : Buffer) (live : Bytes) : Type 0 where
  pub gone : Bytes
  pub splits : b.extra_data ≡ gone ++ live
  pub starts : b.extra_index ≡ length gone
  pub fits : length b.extra_data < 2 ^ 63

pub extraable-Extra : {b : Buffer} {live : Bytes} → Extra b live → extraable b ≡ length live
unfolding extraable
extraable-Extra {live = live} e =
    omega (arith, e.starts, e.fits, ap length e.splits, length-append e.gone live)

-- The second half sends a prefix of the extra data and keeps the rest.
pub write_extra-took :
    {b : Buffer} (sent xs ys : Bytes)
    → Extra b (xs ++ ys)
    → (b' : Buffer) × (write_extra b sent (took (length xs))
        ≡ returns
            (record { code = int_of (length sent + length xs); buffer = b'; sent = sent ++ xs }))
      × Extra b' ys
      × (b'.storage ≡ b.storage)
      × (b'.rindex ≡ b.rindex)
      × (b'.windex ≡ b.windex)
unfolding write_extra
write_extra-took {b} sent xs ys e =
    let there : b.extra_data ≡ e.gone ++ (xs ++ ys) = e.splits in
    let regroup : b.extra_data ≡ e.gone ++ (xs ++ (ys ++ [])) = rw append-nil there in
    (
      record b { extra_index = add64 b.extra_index (length xs) },
      rw regroup (rw (read_range-append e.gone xs (ys ++ []) e.starts refl)),
      record {
        gone = e.gone ++ xs;
        splits = there ∙ simp append_assoc;
        starts = omega (
          arith,
          e.starts,
          e.fits,
          ap length there,
          length-append e.gone (xs ++ ys),
          length-append e.gone xs,
          length-append xs ys,
        );
        fits = e.fits;
      },
      refl,
      refl,
      refl,
    )

pub outgoing-Extra :
    {b : Buffer} {live extra : Bytes} → Holds b live → Extra b extra → outgoing b ≡ live ++ extra
unfolding outgoing
outgoing-Extra {b} {live} {extra} h e =
    ap₂ ◌++◌ (contents-Holds h)
      (ap (drop b.extra_index) e.splits ∙ drop-append b.extra_index e.gone extra e.starts)

-- What `::write` may answer when it is handed these bytes, short of an abort.
abbrev pub Takes : Bytes → Answer → Type 0
Takes bytes (took n) = (xs : Bytes) × (ys : Bytes) × (bytes ≡ xs ++ ys) × (n ≡ length xs)
Takes bytes (failed try_again) = Unit
Takes bytes (failed broken_pipe) = Unit
Takes bytes (failed other_error) = ⊥

-- The same queue in another buffer.
pub Holds-same :
    {b b' : Buffer} {live : Bytes}
    → Holds b live
    → b'.storage ≡ b.storage
    → b'.rindex ≡ b.rindex
    → b'.windex ≡ b.windex
    → Holds b' live
Holds-same h s r w = record {
  dead = h.dead;
  room = h.room;
  splits = s ∙ h.splits;
  starts = r ∙ h.starts;
  ends = w ∙ h.ends;
  fits = rw s h.fits;
}

Extra-retrieve : {b : Buffer} {extra : Bytes} (n : ℕ) → Extra b extra → Extra (retrieve n b) extra
unfolding retrieve
Extra-retrieve n e = record { gone = e.gone; splits = e.splits; starts = e.starts; fits = e.fits }

abbrev Sends : Buffer → Bytes → Run Written → Type 0
Sends b sent run =
    (w : Written) × (run ≡ returns w)
    × (w.sent ++ outgoing w.buffer ≡ sent ++ outgoing b)
    × Holds w.buffer []

write_extra-Sends :
    {b : Buffer} (sent : Bytes) {extra : Bytes} (second : Answer)
    → Holds b []
    → Extra b extra
    → Takes extra second
    → Sends b sent (write_extra b sent second)
unfolding write_extra give_up
write_extra-Sends sent (took n) h e (xs, ys, split, size) =
    let (b', done, e', s, r, w) = write_extra-took sent xs ys (rw split at e) in
    let h' : Holds b' [] = Holds-same h s r w in
    rw (size, done)
      (_, refl, rw (outgoing-Extra h' e', outgoing-Extra h e, split) (append_assoc sent xs ys), h')
write_extra-Sends sent (failed try_again) h e t = (_, refl, refl, h)
write_extra-Sends sent (failed broken_pipe) h e t = (_, refl, refl, h)
write_extra-Sends sent (failed other_error) h e t = absurd t

maybe_write_extra-Sends :
    {b : Buffer} (sent : Bytes) {extra : Bytes} (second : Answer)
    → Holds b []
    → Extra b extra
    → Takes extra second
    → Sends b sent (maybe_write_extra b sent second)
unfolding maybe_write_extra
maybe_write_extra-Sends {b} sent second h e t = elim (Bool-cases (extraable b == 0)) [
  | inl nothing ↦ rw nothing (_, refl, refl, h)
  | inr something ↦ rw something (write_extra-Sends sent second h e t)
]

-- If the socket takes the whole queue at once, and then part or none of the extra data or fails with
-- other than an abort, what `write_fd` puts on it, followed by what the
-- buffer still has to send, is what the buffer had to send: no byte is lost, doubled or moved.
-- Then the queue is empty.
pub write_fd-outgoing :
    {b : Buffer} {live extra : Bytes} (second : Answer)
    → Holds b live
    → Extra b extra
    → Takes extra second
    → (w : Written) × (write_fd b (took (length live)) second ≡ returns w)
      × (w.sent ++ outgoing w.buffer ≡ outgoing b)
      × Holds w.buffer []
unfolding write_fd write_live
write_fd-outgoing {b} {live = []} second h e t =
    rw (readable-Holds h) (maybe_write_extra-Sends [] second h e t)
write_fd-outgoing {b} {live = x ∷ live} {extra} second h e t =
    let all : Bytes = x ∷ live in
    let whole : Holds b (all ++ []) = rw append-nil h in
    let queued : readable b ≡ suc (length live) = readable-Holds h in
    let rest : Buffer = retrieve (length all) b in
    let drained : Holds rest [] = retrieve-Holds all [] whole refl in
    let kept : Extra rest extra = Extra-retrieve (length all) e in
    let (w, done, stream, empty) = maybe_write_extra-Sends all second drained kept t in
    (
      w,
      rw (ne→== (readable b) 0 (omega (arith, queued)), read_range-Holds all [] whole refl)
          (unfold retrieve in done),
      stream ∙ rw (outgoing-Extra drained kept, outgoing-Extra h e),
      empty,
    )

append_cancel : (xs : Bytes) {ys zs : Bytes} → xs ++ ys ≡ xs ++ zs → ys ≡ zs
append_cancel [] e = e
append_cancel (x ∷ xs) e = append_cancel xs (cc)

overtaken :
    (xs : Bytes) (y u : ℕ) (ys us tail extra : Bytes)
    → y ≢ u
    → (xs ++ y ∷ ys) ++ extra ≢ (xs ++ u ∷ us) ++ tail
overtaken xs y u ys us tail extra differ same =
    let e : xs ++ (y ∷ (ys ++ extra)) ≡ xs ++ (u ∷ (us ++ tail)) =
      sym (append_assoc xs (y ∷ ys) extra) ∙ same ∙ append_assoc xs (u ∷ us) tail in
    let e' : y ∷ (ys ++ extra) ≡ u ∷ (us ++ tail) = append_cancel xs e in differ (cc)

-- If the socket takes only a part of the queue, and some of it, and then accepts extra data, the bytes
-- of the extra data overtake the rest of the queue: where the first byte left out differs from the
-- first byte of the extra data, what was sent is no beginning of what had to be sent.
pub write_fd_overtakes :
    {b : Buffer} (xs ys us vs : Bytes) {y u : ℕ}
    → Holds b (xs ++ y ∷ ys)
    → Extra b ((u ∷ us) ++ vs)
    → 0 < length xs
    → y ≢ u
    → (w : Written) × (write_fd b (took (length xs)) (took (length (u ∷ us))) ≡ returns w)
      × (w.sent ≡ xs ++ u ∷ us)
      × ((tail : Bytes) → outgoing b ≢ w.sent ++ tail)
unfolding write_fd write_live maybe_write_extra
write_fd_overtakes {b} xs ys us vs {y} {u} h e some differ =
    let rest : Buffer = retrieve (length xs) b in
    let left : Holds rest (y ∷ ys) = retrieve-Holds xs (y ∷ ys) h refl in
    let kept : Extra rest ((u ∷ us) ++ vs) = Extra-retrieve (length xs) e in
    let (b', done, _, _, _, _) = write_extra-took xs (u ∷ us) vs kept in
    let queued : readable b ≡ length xs + suc (length ys) =
      readable-Holds h ∙ length-append xs (y ∷ ys) in
    let waiting : extraable rest ≡ suc (length (us ++ vs)) = extraable-Extra kept in
    (
      record { code = int_of (length xs + length (u ∷ us)); buffer = b'; sent = xs ++ u ∷ us },
      rw (ne→== (readable b) 0 (omega (arith, queued)), read_range-Holds xs (y ∷ ys) h refl)
          (unfold retrieve in rw (ne→== (extraable rest) 0 (omega (arith, waiting))) done),
      refl,
      λ tail same.
          overtaken xs y u ys us tail ((u ∷ us) ++ vs) differ (sym (outgoing-Extra h e) ∙ same),
    )

-- All that a buffer has to send is sent, and nothing is left.
abbrev pub Whole : Bytes → Run Written → Type 0
Whole sent run =
    (w : Written) × (run ≡ returns w) × (w.sent ≡ sent) × Holds w.buffer [] × Extra w.buffer []

maybe_write_extra-Whole :
    {b : Buffer} (sent extra : Bytes)
    → Holds b []
    → Extra b extra
    → Whole (sent ++ extra) (maybe_write_extra b sent (took (length extra)))
unfolding maybe_write_extra
maybe_write_extra-Whole {b} sent [] h e =
    rw (extraable-Extra e) (_, refl, sym (append-nil sent), h, e)
maybe_write_extra-Whole {b} sent (u ∷ us) h e =
    let some : extraable b ≢ 0 = omega (arith, extraable-Extra e) in
    let (b', done, e', s, r, w) = write_extra-took {b = b} sent (u ∷ us) [] (rw append-nil e) in
    rw (ne→== (extraable b) 0 some, done) (_, refl, refl, Holds-same h s r w, e')

-- `write_fd` when the socket takes the whole queue and all of the extra data.
pub write_fd-Whole :
    {b : Buffer} (live extra : Bytes)
    → Holds b live
    → Extra b extra
    → Whole (live ++ extra) (write_fd b (took (length live)) (took (length extra)))
unfolding write_fd write_live
write_fd-Whole {b} [] extra h e = rw (readable-Holds h) (maybe_write_extra-Whole [] extra h e)
write_fd-Whole {b} (x ∷ live) extra h e =
    let all : Bytes = x ∷ live in
    let whole : Holds b (all ++ []) = rw append-nil h in
    let some : readable b ≢ 0 = omega (arith, readable-Holds h) in
    rw (ne→== (readable b) 0 some, read_range-Holds all [] whole refl)
      (unfold retrieve in
        maybe_write_extra-Whole all extra (retrieve-Holds all [] whole refl)
          (Extra-retrieve (length all) e))
