-- ===== src/EventLoop/Turn.antt =====
-- What a round of the loop runs.
use small_rpc.Prelude.{
  ◌≡◌, ◌∙◌, ap, sym, ℤ, refl, List, [], ◌∷◌, ◌++◌, map, Run, returns, append_assoc, append-nil,
}
use small_rpc.EventLoop.{
  EventLoop, add_func, run_after, stop, wakeup, Wait, woke, run_all, run_funcs, run_timers, turn,
  loop,
}
use small_rpc.TimeStamp.{TimeStamp, after_ms}
use small_rpc.TimerManager.{Timer, add_timer, drain}

-- What a function may ask of the loop while it runs.
pub data Ask (F : Type 0) : Type 0 where
  call : F → Ask F
  after : TimeStamp → ℤ → F → Ask F

module _ {F : Type 0} where
  unfoldable pub ask : Ask F → EventLoop F → EventLoop F
  ask (call f) s = add_func f s
  ask (after now ms f) s = run_after now ms f s

  unfoldable pub ask_all : List (Ask F) → EventLoop F → EventLoop F
  ask_all [] s = s
  ask_all (a ∷ asks) s = ask_all asks (ask a s)

  -- The functions and the timers among what was asked.
  unfoldable pub calls : List (Ask F) → List F
  calls [] = []
  calls (call f ∷ asks) = f ∷ calls asks
  calls (after now ms f ∷ asks) = calls asks

  unfoldable pub set_timers : List (Ask F) → List (Timer F) → List (Timer F)
  set_timers [] timers = timers
  set_timers (call f ∷ asks) timers = set_timers asks timers
  set_timers (after now ms f ∷ asks) timers =
      set_timers asks (add_timer (record { timestamp = after_ms now ms; func = f }) timers)

  ask_all-funcs :
      (asks : List (Ask F)) (s : EventLoop F) → (ask_all asks s).funcs ≡ s.funcs ++ calls asks
  unfolding ask_all ask calls add_func run_after wakeup
  ask_all-funcs [] s = sym (append-nil s.funcs)
  ask_all-funcs (call f ∷ asks) s =
      ask_all-funcs asks (add_func f s) ∙ append_assoc s.funcs (f ∷ []) (calls asks)
  ask_all-funcs (after now ms f ∷ asks) s = ask_all-funcs asks (run_after now ms f s)

  ask_all-timers :
      (asks : List (Ask F)) (s : EventLoop F) → (ask_all asks s).timers ≡ set_timers asks s.timers
  unfolding ask_all ask set_timers add_func run_after wakeup
  ask_all-timers [] s = refl
  ask_all-timers (call f ∷ asks) s = ask_all-timers asks (add_func f s)
  ask_all-timers (after now ms f ∷ asks) s = ask_all-timers asks (run_after now ms f s)

  ask_all_append :
      (asks more : List (Ask F)) (s : EventLoop F)
      → ask_all (asks ++ more) s ≡ ask_all more (ask_all asks s)
  unfolding ask_all
  ask_all_append [] more s = refl
  ask_all_append (a ∷ asks) more s = ask_all_append asks more (ask a s)

  -- All that these functions ask, in order.
  unfoldable pub asked : (F → List (Ask F)) → List F → List (Ask F)
  asked asks [] = []
  asked asks (f ∷ fs) = asks f ++ asked asks fs

-- Each function writes down that it ran and asks of the loop what `asks` says.
module _ {F : Type 0} (asks : F → List (Ask F)) where
  abbrev pub record_run : F → List F × EventLoop F → Run (List F × EventLoop F)
  record_run f (ran, s) = returns (ran ++ f ∷ [], ask_all (asks f) s)

  run_all-record_run :
      (fs ran : List F) (s : EventLoop F)
      → run_all record_run fs (ran, s) ≡ returns (ran ++ fs, ask_all (asked asks fs) s)
  unfolding run_all asked ask_all
  run_all-record_run [] ran s = rw (append-nil ran) refl
  run_all-record_run (f ∷ fs) ran s =
      rw
        (
          run_all-record_run fs (ran ++ f ∷ []) (ask_all (asks f) s),
          append_assoc ran (f ∷ []) fs,
          ask_all_append (asks f) (asked asks fs) s,
        )
        refl

  -- The functions and the timers that a round runs.
  abbrev pub called_in : List F → EventLoop F → List F
  called_in handlers s = s.funcs ++ calls (asked asks handlers)

  abbrev pub due_in : List F → TimeStamp → EventLoop F → List (Timer F) × List (Timer F)
  due_in handlers now s =
      drain now
        (set_timers (asked asks (called_in handlers s)) (set_timers (asked asks handlers) s.timers))

  -- A round of the loop runs the handlers of the ready channels, then every function that was added before the
  -- round or by a handler, each once and in the order of `add_func`, then the timers that are due by then, those
  -- that the handlers and functions set included. What is added while the functions and the timers run is
  -- not lost: those functions wait, in their order, for the next round, and so do the timers with
  -- those that are not due.
  pub turn-order :
      (handlers ran : List F) (now : TimeStamp) (s : EventLoop F)
      → (s' : EventLoop F) × (turn record_run (woke handlers now) (ran, s)
          ≡ returns (
            ran ++ handlers ++ called_in handlers s ++ map (λ t. t.func) (due_in handlers now s).0,
            s',
          ))
        × (s'.funcs
            ≡ calls (asked asks (called_in handlers s))
              ++ calls (asked asks (map (λ t. t.func) (due_in handlers now s).0)))
        × (s'.timers
            ≡ set_timers
                (asked asks (map (λ t. t.func) (due_in handlers now s).0))
                (due_in handlers now s).1)
  unfolding turn run_funcs run_timers
  turn-order handlers ran now s =
      let s1 = ask_all (asked asks handlers) s in
      let funcs : s1.funcs ≡ called_in handlers s = ask_all-funcs (asked asks handlers) s in
      let s2 = ask_all (asked asks (called_in handlers s)) (record s1 { funcs = [] }) in
      let timers : s2.timers
          ≡ set_timers (asked asks (called_in handlers s))
              (set_timers (asked asks handlers) s.timers) =
        ask_all-timers (asked asks (called_in handlers s)) (record s1 { funcs = [] })
        ∙ ap (set_timers (asked asks (called_in handlers s)))
            (ask_all-timers (asked asks handlers) s) in
      let due = map (λ t. t.func) (due_in handlers now s).0 in
      let s3 : EventLoop F = record s2 { timers = (due_in handlers now s).1 } in
      (
        ask_all (asked asks due) s3,
        rw (run_all-record_run handlers ran s) (
            rw funcs (
              rw
                (run_all-record_run (called_in handlers s) (ran ++ handlers)
                  (record s1 { funcs = [] }))
                (rw timers (run_all-record_run due (ran ++ handlers ++ called_in handlers s) s3)))),
        ask_all-funcs (asked asks due) s3
            ∙ ap (λ fs. fs ++ calls (asked asks due))
                (ask_all-funcs (asked asks (called_in handlers s)) (record s1 { funcs = [] })),
        ask_all-timers (asked asks due) s3,
      )

module _ {F : Type 0} where
  -- A loop that was stopped runs nothing more, whatever epoll would give.
  pub loop-stop :
      {W : Type 0} (exec : F → W × EventLoop F → Run (W × EventLoop F)) (w : W) (s : EventLoop F)
      (waits : List (Wait F))
      → loop exec waits (w, stop s) ≡ returns (w, stop s)
  unfolding loop stop wakeup
  loop-stop exec w s [] = refl
  loop-stop exec w s (wait ∷ waits) = refl
