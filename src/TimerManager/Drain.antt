-- ===== src/TimerManager/Drain.antt =====
-- The timers that an event loop executes.
use mathlib.Core.List.{Perm}
use mathlib.Core.List.Perm
use small_rpc.Prelude.{
  true, false, ◌≡◌, inl, inr, refl, List, [], ◌∷◌, ◌++◌, All, arith, Bool-cases, ap,
}
use small_rpc.TimeStamp.{TimeStamp, before}
use small_rpc.TimeStamp.Order.{before_asymm, not_before_trans}
use small_rpc.TimerManager.{Timer, timer_less, add_timer, drain}

module _ {F : Type 0} where
  -- No timer comes before `t`.
  abbrev pub NoneBefore : TimeStamp → List (Timer F) → Type 0
  NoneBefore t = All (λ u. before u.timestamp t ≡ false)

  abbrev pub IsOrdered : List (Timer F) → Type 0
  IsOrdered [] = Unit
  IsOrdered (t ∷ queue) = NoneBefore t.timestamp queue × IsOrdered queue

  -- All timers of a list are added to an empty queue, one after the other.
  unfoldable pub add_all : List (Timer F) → List (Timer F)
  add_all [] = []
  add_all (t ∷ ts) = add_timer t (add_all ts)

  add_timer-perm : (t : Timer F) (queue : List (Timer F)) → Perm (add_timer t queue) (t ∷ queue)
  unfolding add_timer
  add_timer-perm t [] = Perm.refl _
  add_timer-perm t (u ∷ queue) = elim (Bool-cases (timer_less t u)) [
    | inl later ↦ rw later (Perm.trans (Perm.cons u (add_timer-perm t queue)) (Perm.swap t u queue))
    | inr first ↦ rw first (Perm.refl _)
  ]

  add_all-perm : (ts : List (Timer F)) → Perm (add_all ts) ts
  unfolding add_all
  add_all-perm [] = Perm.refl _
  add_all-perm (t ∷ ts) = Perm.trans (add_timer-perm t (add_all ts)) (Perm.cons t (add_all-perm ts))

  NoneBefore-add_timer :
      (at : TimeStamp) (t : Timer F) (queue : List (Timer F))
      → before t.timestamp at ≡ false
      → NoneBefore at queue
      → NoneBefore at (add_timer t queue)
  unfolding add_timer
  NoneBefore-add_timer at t [] h n = (h, tt)
  NoneBefore-add_timer at t (u ∷ queue) h n = ground (arith, NoneBefore-add_timer at t queue h n.1)

  -- Times that do not come before one also do not come before an earlier one.
  NoneBefore-weaken :
      (a b : TimeStamp) (queue : List (Timer F))
      → before b a ≡ false
      → NoneBefore b queue
      → NoneBefore a queue
  NoneBefore-weaken a b [] h n = tt
  NoneBefore-weaken a b (u ∷ queue) h n =
      (not_before_trans u.timestamp b a n.0 h, NoneBefore-weaken a b queue h n.1)

  add_timer-IsOrdered :
      (t : Timer F) (queue : List (Timer F)) → IsOrdered queue → IsOrdered (add_timer t queue)
  unfolding add_timer timer_less
  add_timer-IsOrdered t [] o = (tt, tt)
  add_timer-IsOrdered t (u ∷ queue) o = elim (Bool-cases (before t.timestamp u.timestamp)) [
    | inl first ↦
        let back = before_asymm t.timestamp u.timestamp first in
        rw first ((back, NoneBefore-weaken t.timestamp u.timestamp queue back o.0), o)
    | inr later ↦
        rw later
          (NoneBefore-add_timer u.timestamp t queue later o.0, add_timer-IsOrdered t queue o.1)
  ]

  add_all-IsOrdered : (ts : List (Timer F)) → IsOrdered (add_all ts)
  unfolding add_all
  add_all-IsOrdered [] = tt
  add_all-IsOrdered (t ∷ ts) = add_timer-IsOrdered t (add_all ts) (add_all-IsOrdered ts)

  -- What is drained is due, in order; what stays is not.
  abbrev pub Splits : TimeStamp → List (Timer F) → List (Timer F) × List (Timer F) → Type 0
  Splits now queue (due, rest) =
      (queue ≡ due ++ rest) × All (λ t. before t.timestamp now ≡ true) due × NoneBefore now rest

  drain-Splits :
      (now : TimeStamp) (queue : List (Timer F))
      → IsOrdered queue
      → Splits now queue (drain now queue)
  unfolding drain
  drain-Splits now [] o = (refl, tt, tt)
  drain-Splits now (t ∷ queue) o = elim (Bool-cases (before t.timestamp now)) [
    | inl due ↦
        let (split, are_due, stay) = drain-Splits now queue o.1 in
        rw due (ap (◌∷◌ t) split, (due, are_due), stay)
    | inr waits ↦ rw waits (refl, tt, (waits, NoneBefore-weaken now t.timestamp queue waits o.0))
  ]

  NoneBefore-left :
      (t : TimeStamp) (xs ys : List (Timer F)) → NoneBefore t (xs ++ ys) → NoneBefore t xs
  NoneBefore-left t [] ys n = tt
  NoneBefore-left t (x ∷ xs) ys n = (n.0, NoneBefore-left t xs ys n.1)

  IsOrdered-left : (xs ys : List (Timer F)) → IsOrdered (xs ++ ys) → IsOrdered xs
  IsOrdered-left [] ys o = tt
  IsOrdered-left (x ∷ xs) ys o = (NoneBefore-left x.timestamp xs ys o.0, IsOrdered-left xs ys o.1)

  -- After any timers were added, a round of the loop at the time `now` executes the ones whose time
  -- comes before `now`, in the order of their times, and keeps all others; none is lost or doubled.
  pub drain-add_all :
      (now : TimeStamp) (ts : List (Timer F))
      → Perm ((drain now (add_all ts)).0 ++ (drain now (add_all ts)).1) ts
        × All (λ t. before t.timestamp now ≡ true) (drain now (add_all ts)).0
        × IsOrdered (drain now (add_all ts)).0
        × NoneBefore now (drain now (add_all ts)).1
  drain-add_all now ts =
      let ordered = add_all-IsOrdered ts in
      let (split, due, stay) = drain-Splits now (add_all ts) ordered in
      (
        rw split at (add_all-perm ts),
        due,
        IsOrdered-left _ (drain now (add_all ts)).1 (rw split at ordered),
        stay,
      )
