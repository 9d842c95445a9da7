-- ===== src/TimerManager.antt =====
-- net/timer_manager.h, and the part of `EventLoop::loop` that takes the timers which are due. A
-- `std::priority_queue` is a list with the top in front. For two timers of the same time `operator<` holds both ways,
-- so that it is no strict weak order, which the library requires; the model then keeps the older one in
-- front.
pub mod Drain
use small_rpc.Prelude.{Bool, true, false, not, if◌then◌else◌, List, [], ◌∷◌, Option, none, some}
use small_rpc.TimeStamp.{TimeStamp, before, zero_time}

-- `F` stands for `std::function<void()>`.
module _ (F : Type 0) where
  pub record Timer : Type 0 where
    pub timestamp : TimeStamp
    pub func : F

module _ {F : Type 0} where
  -- `Timer::operator<`: the later time is less.
  unfoldable pub timer_less : Timer F → Timer F → Bool
  timer_less a b = not (before a.timestamp b.timestamp)

  -- `add_timer`: `_queue.emplace`, behind what is not less.
  unfoldable pub add_timer : Timer F → List (Timer F) → List (Timer F)
  add_timer t [] = t ∷ []
  add_timer t (u ∷ queue) =
      let later = add_timer t queue in if timer_less t u then u ∷ later else t ∷ u ∷ queue

  -- `get_latest_timer`
  unfoldable pub get_latest_timer : List (Timer F) → TimeStamp
  get_latest_timer [] = zero_time
  get_latest_timer (t ∷ queue) = t.timestamp

  -- The loop over the timers of `EventLoop::loop`: those that it executes, and those that stay.
  unfoldable pub drain : TimeStamp → List (Timer F) → List (Timer F) × List (Timer F)
  drain now [] = ([], [])
  drain now (t ∷ queue) =
      let later = drain now queue in
      if before t.timestamp now then (t ∷ later.0, later.1) else ([], t ∷ queue)
