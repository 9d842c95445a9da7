-- ===== src/TimeStamp.antt =====
-- base/timestamp.h: seconds and milliseconds as `long`s, which are taken not to overflow. The clock's
-- reading is an argument.
pub mod Order
pub mod Text
use small_rpc.Prelude.{
  ℕ, ◌+◌, Bool, true, false, ◌&&◌, not, if◌then◌else◌, ◌==◌, ℤ, pos, negsuc, ltb_ℤ, ◌+ℤ◌, ◌-ℤ◌,
  times, quotient, remainder, int_of_long,
}

pub record TimeStamp : Type 0 where
  pub sec : ℤ
  pub msec : ℤ

-- `TimeStamp()`
unfoldable pub zero_time : TimeStamp
zero_time = record { sec = pos 0; msec = pos 0 }

unfoldable pub eqb_ℤ : ℤ → ℤ → Bool
eqb_ℤ (pos a) (pos b) = a == b
eqb_ℤ (negsuc a) (negsuc b) = a == b
eqb_ℤ (pos a) (negsuc b) = false
eqb_ℤ (negsuc a) (pos b) = false

-- `operator==`, `operator<` and `operator-`
unfoldable pub same_time : TimeStamp → TimeStamp → Bool
same_time a b = eqb_ℤ a.sec b.sec && eqb_ℤ a.msec b.msec

unfoldable pub before : TimeStamp → TimeStamp → Bool
before a b = if not (eqb_ℤ a.sec b.sec) then ltb_ℤ a.sec b.sec else ltb_ℤ a.msec b.msec

-- The difference in milliseconds, before and after its cast to `int`.
unfoldable pub long_minus : TimeStamp → TimeStamp → ℤ
long_minus a b = times (a.sec -ℤ b.sec) 1000 +ℤ a.msec -ℤ b.msec

unfoldable pub minus : TimeStamp → TimeStamp → ℤ
minus a b = int_of_long (long_minus a b)

-- `after_now_ms`, at the clock's reading `now`.
unfoldable pub after_ms : TimeStamp → ℤ → TimeStamp
after_ms now wait = record {
  sec = now.sec +ℤ quotient (now.msec +ℤ wait) 1000;
  msec = remainder (now.msec +ℤ wait) 1000;
}
