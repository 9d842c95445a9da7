-- ===== src/EventLoop.antt =====
-- net/eventloop.h, net/eventloop.cpp and net/channel.h: the loop's functions, timers and channels,
-- and the events that epoll watches. A channel's address is a number; the counter of the eventfd is
-- `wakeups`. The kernel is a parameter.
pub mod Watch
pub mod Registry
pub mod Turn
pub mod Waker
use small_rpc.Prelude.{
  ℕ, ◌+◌, ◌≢◌, ◌≡◌, Bool, true, false, ◌&&◌, ◌==◌, ltb, if◌then◌else◌, List, [], ◌∷◌, ◌++◌, map,
  Option, none, some, Run, returns, fault, ◌>>=◌, ℤ, pos, negsuc, ltb_ℤ,
}
use small_rpc.Buffer.Socket.{Errno, try_again, broken_pipe, other_error}
use small_rpc.TimeStamp.{TimeStamp, same_time, minus, after_ms}
use small_rpc.TimerManager.{Timer, add_timer, drain, get_latest_timer}

-- `Channel`: the events it wants, and those the loop told epoll.
pub record Channel : Type 0 where
  pub fd : ℕ
  pub event : ℕ
  pub sevent : ℕ

pub data Op : Type 0 where
  add modify del : Op

-- What `epoll_ctl(2)` documents. `none` is the answer -1; `watched` is the interest list. An `EPOLL_CTL_ADD` may
-- be refused, with `ENOSPC`, `ENOMEM`, `EBADF` or `EPERM`.
pub record Epoll (K : Type 0) : Type 0 where
  pub ctl : Op → ℕ → ℕ → K → Option K
  pub watched : K → ℕ → Option ℕ
  pub ctl_add :
      (k k' : K) (fd events : ℕ)
      → watched k fd ≡ none
      → ctl add fd events k ≡ some k'
      → watched k' fd ≡ some events
  pub ctl_mod :
      (k : K) (fd events old : ℕ)
      → watched k fd ≡ some old
      → (k' : K) × (ctl modify fd events k ≡ some k') × (watched k' fd ≡ some events)
  pub ctl_del :
      (k : K) (fd events old : ℕ)
      → watched k fd ≡ some old
      → (k' : K) × (ctl del fd events k ≡ some k') × (watched k' fd ≡ none)

module _ {K : Type 0} (E : Epoll K) where
  -- `_epoll_ctl`
  unfoldable pub epoll_ctl : Op → Channel → K → Run (Channel × K)
  epoll_ctl op c k = elim (E.ctl op c.fd c.event k) [
    | none ↦ fault
    | some k' ↦ returns (record c { sevent = c.event }, k')
  ]

  unfoldable pub update_changed : Channel → K → Run (Channel × K)
  update_changed c k =
      if c.sevent == 0
      then if c.event == 0 then returns (c, k) else epoll_ctl add c k
      else if c.event == 0
      then epoll_ctl del c k
      else epoll_ctl modify c k

  -- `update_channel`
  unfoldable pub update_channel : Channel → K → Run (Channel × K)
  update_channel c k = if c.sevent == c.event then returns (c, k) else update_changed c k

unfoldable pub set_entry : ℕ → Option TimeStamp → (ℕ → Option TimeStamp) → ℕ → Option TimeStamp
set_entry c entry channels d = if d == c then entry else channels d

-- Whether a channel stands in the map with this time.
unfoldable pub entry_is : TimeStamp → Option TimeStamp → Bool
entry_is ts none = false
entry_is ts (some at) = same_time at ts

-- `DefaultEpollTimeout`
abbrev pub default_epoll_timeout : ℤ
default_epoll_timeout = pos 256

module _ (F : Type 0) where
  pub record EventLoop : Type 0 where
    pub is_stop : Bool
    pub wakeups : ℕ
    pub funcs : List F
    pub timers : List (Timer F)
    pub channels : ℕ → Option TimeStamp

module _ {F : Type 0} where
  -- `EventLoop()`
  unfoldable pub new_loop : EventLoop F
  new_loop = record { is_stop = false; wakeups = 0; funcs = []; timers = []; channels = λ c. none }

  unfoldable pub wakeup : EventLoop F → EventLoop F
  wakeup s = record s { wakeups = s.wakeups + 1 }

  unfoldable pub stop : EventLoop F → EventLoop F
  stop s = wakeup (record s { is_stop = true })

  unfoldable pub add_func : F → EventLoop F → EventLoop F
  add_func f s = wakeup (record s { funcs = s.funcs ++ f ∷ [] })

  -- `run_after`, at the clock's reading `now`.
  unfoldable pub run_after : TimeStamp → ℤ → F → EventLoop F → EventLoop F
  run_after now wait f s = wakeup (record s {
    timers = add_timer (record { timestamp = after_ms now wait; func = f }) s.timers;
  })

  unfoldable pub add_channel : ℕ → TimeStamp → EventLoop F → EventLoop F
  add_channel c ts s = record s { channels = set_entry c (some ts) s.channels }

  unfoldable pub remove_channel : ℕ → TimeStamp → EventLoop F → EventLoop F
  remove_channel c ts s =
      if entry_is ts (s.channels c) then record s { channels = set_entry c none s.channels } else s

  unfoldable pub has_channel : ℕ → TimeStamp → EventLoop F → Bool
  has_channel c ts s = entry_is ts (s.channels c)

  -- How long `loop` lets `epoll_wait` sleep.
  unfoldable pub wait_ms : TimeStamp → List (Timer F) → ℤ
  wait_ms now [] = default_epoll_timeout
  wait_ms now (t ∷ timers) = minus (get_latest_timer (t ∷ timers)) now

  unfoldable pub epoll_timeout : TimeStamp → EventLoop F → ℤ
  epoll_timeout now s =
      let wait = wait_ms now s.timers in if ltb_ℤ wait (pos 0) then pos 0 else wait

-- What a call of `epoll_wait` gives: an error, or the handlers of the channels that are ready, and
-- the clock's reading after them.
module _ (F : Type 0) where
  pub data Wait : Type 0 where
    wait_failed : Errno → Wait
    woke : List F → TimeStamp → Wait

-- `exec` runs a function on the rest of the program's state and on the loop.
module _ {F W : Type 0} (exec : F → W × EventLoop F → Run (W × EventLoop F)) where
  unfoldable pub run_all : List F → W × EventLoop F → Run (W × EventLoop F)
  run_all [] s = returns s
  run_all (f ∷ fs) s = exec f s >>= run_all fs

  -- The swap of `_funcs` and the loop over them.
  unfoldable pub run_funcs : W × EventLoop F → Run (W × EventLoop F)
  run_funcs (w, s) = run_all s.funcs (w, record s { funcs = [] })

  unfoldable pub run_timers : TimeStamp → W × EventLoop F → Run (W × EventLoop F)
  run_timers now (w, s) =
      let split = drain now s.timers in
      run_all (map (λ t. t.func) split.0) (w, record s { timers = split.1 })

  -- The body of `loop`.
  unfoldable pub turn : Wait F → W × EventLoop F → Run (W × EventLoop F)
  turn (wait_failed try_again) s = returns s
  turn (wait_failed broken_pipe) s = fault
  turn (wait_failed other_error) s = fault
  turn (woke handlers now) s = do
    handled ← run_all handlers s
    called ← run_funcs handled
    run_timers now called

  -- `loop`, for as many waits as the list has.
  unfoldable pub loop : List (Wait F) → W × EventLoop F → Run (W × EventLoop F)
  loop [] s = returns s
  loop (wait ∷ waits) s = elim s.1.is_stop [ true ↦ returns s | false ↦ turn wait s >>= loop waits ]
