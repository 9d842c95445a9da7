-- ===== src/TimeStamp/Order.antt =====
-- The order of times, and the difference of a later time.
use small_rpc.Prelude.{
  ◌+◌, ◌≡◌, ◌⊎◌, arith, true, false, ℤ, ◌+ℤ◌, ◌-ℤ◌, times, quotient, remainder, +ℤ_parts, -ℤ_parts,
  eq_of_parts, pos_part, neg_part,
}
use small_rpc.TimeStamp.{TimeStamp, eqb_ℤ, before, long_minus, after_ms}

pub before_irrefl : (a : TimeStamp) → before a a ≡ false
unfolding before eqb_ℤ
before_irrefl a = ground arith

pub before_trans : (a b c : TimeStamp) → before a b ≡ true → before b c ≡ true → before a c ≡ true
unfolding before eqb_ℤ
before_trans a b c h k = ground arith

pub before_total : (a b : TimeStamp) → (before a b ≡ true) ⊎ (before b a ≡ true) ⊎ (a ≡ b)
unfolding before eqb_ℤ
before_total a b = ground arith

pub before_asymm : (a b : TimeStamp) → before a b ≡ true → before b a ≡ false
unfolding before eqb_ℤ
before_asymm a b h = ground arith

pub not_before_trans :
    (a b c : TimeStamp) → before a b ≡ false → before b c ≡ false → before a c ≡ false
unfolding before eqb_ℤ
not_before_trans a b c h k = ground arith

split_parts :
    (a : ℤ)
    → pos_part (times (quotient a 1000) 1000) + pos_part (remainder a 1000) + neg_part a
      ≡ neg_part (times (quotient a 1000) 1000) + neg_part (remainder a 1000) + pos_part a
unfolding times quotient remainder
split_parts a = ground arith

-- A time so many milliseconds after another, or before it for a negative number, differs from it by
-- that number, whatever the other's parts.
pub after_ms-long_minus : (now : TimeStamp) (wait : ℤ) → long_minus (after_ms now wait) now ≡ wait
unfolding long_minus after_ms
after_ms-long_minus now wait =
    let t : ℤ = now.msec +ℤ wait in
    let q : ℤ = quotient t 1000 in
    let back : (now.sec +ℤ q) -ℤ now.sec ≡ q =
      eq_of_parts ((now.sec +ℤ q) -ℤ now.sec) q
        (omega (arith, -ℤ_parts (now.sec +ℤ q) now.sec, +ℤ_parts now.sec q)) in
    rw back (
      eq_of_parts ((times q 1000 +ℤ remainder t 1000) -ℤ now.msec) wait (
        omega (
          arith,
          -ℤ_parts (times q 1000 +ℤ remainder t 1000) now.msec,
          +ℤ_parts (times q 1000) (remainder t 1000),
          split_parts t,
          +ℤ_parts now.msec wait,
        )))
