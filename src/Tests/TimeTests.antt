-- ===== src/Tests/TimeTests.antt =====
-- base/timestamp.h, net/timer_manager.h and base/done_guard.h at concrete inputs.
use mathlib.Core.List.{Perm}
use small_rpc.DoneGuard.{
  Call, release_call, reset_call, scope, new_guard, unreleased, scope-unreleased,
}
use small_rpc.Prelude.{
  ℤ, ◌+ℤ◌, length, codes, arith, ℕ, ◌≡◌, refl, true, List, [], ◌∷◌, ◌++◌, All, pos, some,
}
use small_rpc.Http.Text.{decimal, digits_onto}
use small_rpc.TimeStamp.Text.{Tm, IsCivil, str, str_text, print, print_text, padded, str-print}
use small_rpc.TimeStamp.Order.{after_ms-long_minus}
use small_rpc.TimeStamp.{TimeStamp, before, long_minus, after_ms}
use small_rpc.TimerManager.Drain.{IsOrdered, NoneBefore, add_all, drain-add_all}
use small_rpc.TimerManager.{Timer, drain}

abbrev at : ℕ → ℕ → TimeStamp
at sec msec = record { sec = pos sec; msec = pos msec }

after_ms-long_minus_example : long_minus (after_ms (at 7 250) (pos 3900)) (at 7 250) ≡ pos 3900
after_ms-long_minus_example = after_ms-long_minus (at 7 250) (pos 3900)

abbrev three_timers : List (Timer ℕ)
three_timers =
    record { timestamp = at 5 0; func = 1 }
    ∷ record { timestamp = at 3 0; func = 2 }
    ∷ record { timestamp = at 9 0; func = 3 }
    ∷ []

drain-add_all_example :
    Perm
      ((drain (at 6 0) (add_all three_timers)).0 ++ (drain (at 6 0) (add_all three_timers)).1)
      three_timers
    × All (λ t. before t.timestamp (at 6 0) ≡ true) (drain (at 6 0) (add_all three_timers)).0
    × IsOrdered (drain (at 6 0) (add_all three_timers)).0
    × NoneBefore (at 6 0) (drain (at 6 0) (add_all three_timers)).1
drain-add_all_example = drain-add_all (at 6 0) three_timers

abbrev calls : List (Call ℕ)
calls = reset_call (some 4) ∷ release_call ∷ reset_call (some 5) ∷ []

scope-unreleased_example : (scope calls (new_guard (some 3))).ran ≡ unreleased (some 3) calls
scope-unreleased_example = scope-unreleased calls (some 3)

two_closures_run : unreleased (some 3) calls ≡ 3 ∷ 5 ∷ []
unfolding unreleased
two_closures_run = refl

-- 2020-01-01 10:00:00, wherever the clock stands.
abbrev new_year : ℤ → Tm
new_year sec = record {
  tm_year = pos 120;
  tm_mon = pos 0;
  tm_mday = pos 1;
  tm_hour = pos 10;
  tm_min = pos 0;
  tm_sec = pos 0;
}

new_year-IsCivil : IsCivil (new_year (pos 7))
unfolding ◌+ℤ◌
new_year-IsCivil = record {
  year = (2020, refl, omega arith);
  month = (0, refl, omega arith);
  day = (1, refl, omega arith);
  hour = (10, refl, omega arith);
  minute = (0, refl, omega arith);
  second = (0, refl, omega arith);
}

str-print_example :
    (str new_year (at 7 5) ≡ str_text new_year (at 7 5))
    × (length (str new_year (at 7 5)) ≡ 15)
    × (print new_year (at 7 5) ≡ print_text new_year (at 7 5))
    × (length (print new_year (at 7 5)) ≡ 23)
str-print_example = str-print new_year (at 7 5) new_year-IsCivil 5 refl (omega arith)

-- The comment in the source leaves the `_` out.
str_run : str new_year (at 7 5) ≡ codes "20200101_100000"
unfolding str str_text padded decimal digits_onto ◌+ℤ◌
str_run = refl

print_run : print new_year (at 7 5) ≡ codes "2020-01-01 10:00:00:005"
unfolding print print_text padded decimal digits_onto ◌+ℤ◌
print_run = refl
