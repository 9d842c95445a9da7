-- ===== src/StatusManager.antt =====
-- base/status_manager.h and base/status_manager.cpp: a flag that SIGINT sets. The threads that call
-- `is_close` and `wait_for_signal`, and the handler, which the system runs on any of them, share a mutex.
-- A thread is a number, and a step is one thread's or the system's.
pub mod Deadlock
use small_rpc.Prelude.{
  ℕ, Bool, true, false, ◌==◌, if◌then◌else◌, ◌≡◌, Option, none, some, Run, returns, fault,
}

-- Where a thread stands in `is_close` or `wait_for_signal`: outside, at the mutex, behind it, or
-- asleep on the condition variable.
pub data Place : Type 0 where
  outside : Place
  at_mutex : Place
  inside : Place
  asleep : Place

-- `_exit` and `_mtx`, with the places of all threads, and the handler on each: `none` where it does not
-- run, `false` where it is at the mutex, `true` where it is behind it.
pub record StatusManager : Type 0 where
  pub exit : Bool
  pub owner : Option ℕ
  pub place : ℕ → Place
  pub handler : ℕ → Option Bool

abbrev pub put {ℓ} : {A : Type ℓ} → ℕ → A → (ℕ → A) → ℕ → A
put t a f u = if u == t then a else f u

-- `StatusManager()`
unfoldable pub new_manager : StatusManager
new_manager = record { exit = false; owner = none; place = λ t. outside; handler = λ t. none }

-- `register_signals`, with whether `sigaction` succeeds.
unfoldable pub register_signals : Bool → Run Bool
register_signals true = returns true
register_signals false = fault

-- A `unique_lock` is asked for, or asked for again when `wait_until` wakes up.
unfoldable pub ask : ℕ → StatusManager → StatusManager
ask t s = record s { place = put t at_mutex s.place }

unfoldable pub lock : ℕ → StatusManager → StatusManager
lock t s = record s { owner = some t; place = put t inside s.place }

-- The end of `is_close`, whose answer is `exit`, or of `wait_for_signal`.
unfoldable pub leave : ℕ → StatusManager → StatusManager
leave t s = record s { owner = none; place = put t outside s.place }

-- `wait_until` gives the mutex up.
unfoldable pub fall_asleep : ℕ → StatusManager → StatusManager
fall_asleep t s = record s { owner = none; place = put t asleep s.place }

-- SIGINT on a thread: `_handle_signal` runs up to the mutex of `_set_close`.
unfoldable pub interrupt : ℕ → StatusManager → StatusManager
interrupt t s = record s { handler = put t (some false) s.handler }

unfoldable pub handler_lock : ℕ → StatusManager → StatusManager
handler_lock t s = record s { owner = some t; handler = put t (some true) s.handler }

-- The rest of `_set_close`; those that it notifies may wake up at any time anyway.
unfoldable pub set_close : ℕ → StatusManager → StatusManager
set_close t s = record s { exit = true; owner = none; handler = put t none s.handler }

-- When each of these may happen. A thread's own code stands still while the handler runs on it, the mutex is
-- given to one that asks for it when nobody has it, and SIGINT is blocked in its handler.
pub data Step : StatusManager → StatusManager → Type 0 where
  asks : {s : StatusManager} (t : ℕ) → s.place t ≡ outside → s.handler t ≡ none → Step s (ask t s)
  wakes : {s : StatusManager} (t : ℕ) → s.place t ≡ asleep → s.handler t ≡ none → Step s (ask t s)
  locks :
      {s : StatusManager} (t : ℕ)
      → s.place t ≡ at_mutex
      → s.handler t ≡ none
      → s.owner ≡ none
      → Step s (lock t s)
  leaves :
      {s : StatusManager} (t : ℕ)
      → s.place t ≡ inside
      → s.handler t ≡ none
      → s.owner ≡ some t
      → Step s (leave t s)
  falls_asleep :
      {s : StatusManager} (t : ℕ)
      → s.place t ≡ inside
      → s.handler t ≡ none
      → s.owner ≡ some t
      → Step s (fall_asleep t s)
  interrupts : {s : StatusManager} (t : ℕ) → s.handler t ≡ none → Step s (interrupt t s)
  handler_locks :
      {s : StatusManager} (t : ℕ)
      → s.handler t ≡ some false
      → s.owner ≡ none
      → Step s (handler_lock t s)
  sets_close :
      {s : StatusManager} (t : ℕ)
      → s.handler t ≡ some true
      → s.owner ≡ some t
      → Step s (set_close t s)

pub data Steps : StatusManager → StatusManager → Type 0 where
  still : {s : StatusManager} → Steps s s
  further : {s s' s'' : StatusManager} → Step s s' → Steps s' s'' → Steps s s''
