-- ===== src/Tests/LoopTests.antt =====
-- net/eventloop.cpp at concrete inputs.
use small_rpc.EventLoop.Turn.{
  Ask, call, after, record_run, calls, asked, set_timers, called_in, due_in, turn-order,
}
use small_rpc.EventLoop.Watch.{IsSynced, IsRefused, Updates, entry_of, update_channel-IsSynced}
use small_rpc.EventLoop.{Channel, update_channel, update_changed, epoll_ctl, EventLoop, woke, turn}
use small_rpc.Prelude.{
  ℕ, ◌≡◌, ◌⊎◌, List, fault, refl, false, ◌==◌, if◌then◌else◌, [], ◌∷◌, ◌++◌, map, none, some, pos,
  returns,
}
use small_rpc.Tests.Kernel.{Table, table}
use small_rpc.TimeStamp.{TimeStamp}

-- A channel that is watched for input and now wants to write.
abbrev writer : Channel
writer = record { fd = 5; event = 4; sevent = 1 }

abbrev kernel : Table
kernel fd = if fd == 5 then some 1 else none

writer-IsSynced : IsSynced table writer kernel
unfolding entry_of table
writer-IsSynced = refl

update_channel-IsSynced_example :
    (IsRefused table writer kernel × (update_channel table writer kernel ≡ fault))
    ⊎ Updates table writer kernel
update_channel-IsSynced_example = update_channel-IsSynced table writer kernel writer-IsSynced

-- A descriptor that the kernel refuses.
abbrev stranger : Channel
stranger = record { fd = 2000; event = 1; sevent = 0 }

stranger_aborts : update_channel table stranger kernel ≡ fault
unfolding update_channel update_changed epoll_ctl table
stranger_aborts = refl

abbrev morning : TimeStamp
morning = record { sec = pos 1; msec = pos 2 }

abbrev noon : TimeStamp
noon = record { sec = pos 9; msec = pos 0 }

abbrev idle : EventLoop ℕ
idle = record {
  is_stop = false;
  wakeups = 0;
  funcs = 7 ∷ 8 ∷ [];
  timers = [];
  channels = λ c. none;
}

-- The handler 1 adds the function 9, the function 7 adds 10 and a timer at once, and the timer 11 adds 12.
abbrev round_asks : ℕ → List (Ask ℕ)
round_asks f =
    if f == 1
    then call 9 ∷ []
    else if f == 7
    then call 10 ∷ after morning (pos 5) 11 ∷ []
    else if f == 11
    then call 12 ∷ []
    else []

turn-order_example :
    (s' : EventLoop ℕ) × (turn (record_run round_asks) (woke (1 ∷ 2 ∷ []) noon) ([], idle)
      ≡ returns (
        []
            ++ (1 ∷ 2 ∷ [])
            ++ called_in round_asks (1 ∷ 2 ∷ []) idle
            ++ map (λ t. t.func) (due_in round_asks (1 ∷ 2 ∷ []) noon idle).0,
        s',
      ))
    × (s'.funcs
        ≡ calls (asked round_asks (called_in round_asks (1 ∷ 2 ∷ []) idle))
          ++ calls
              (asked round_asks (map (λ t. t.func) (due_in round_asks (1 ∷ 2 ∷ []) noon idle).0)))
    × (s'.timers
        ≡ set_timers
            (asked round_asks (map (λ t. t.func) (due_in round_asks (1 ∷ 2 ∷ []) noon idle).0))
            (due_in round_asks (1 ∷ 2 ∷ []) noon idle).1)
turn-order_example = turn-order round_asks (1 ∷ 2 ∷ []) [] noon idle
