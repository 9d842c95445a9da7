-- ===== src/StatusManager/Deadlock.antt =====
-- SIGINT on a thread that has the mutex.
use small_rpc.Prelude.{
  ℕ, Bool, true, false, ◌==◌, ==_refl, Bool-cases, inl, inr, ◌≡◌, refl, ap, sym, ◌∙◌, Option, none,
  some,
}
use small_rpc.StatusManager.{
  StatusManager, put, ask, lock, leave, fall_asleep, interrupt, handler_lock, set_close, Step, asks,
  wakes, locks, leaves, falls_asleep, interrupts, handler_locks, sets_close, Steps, still, further,
}

-- A thread has the mutex, and the handler on it asks for it.
abbrev pub IsStuck : ℕ → Bool → StatusManager → Type 0
IsStuck t exit s = (s.owner ≡ some t) × (s.handler t ≡ some false) × (s.exit ≡ exit)

put_same :
    (t u : ℕ) (handler : ℕ → Option Bool)
    → handler t ≡ some false
    → put u (some false) handler t ≡ some false
put_same t u handler e = elim (Bool-cases (t == u)) [
  | inl same ↦ rw same refl
  | inr other ↦ rw other e
]

owner_same : {owner : Option ℕ} {t u : ℕ} → owner ≡ some t → owner ≡ some u → u ≡ t
owner_same a b = cc

Step-IsStuck :
    (t : ℕ) (exit : Bool) {s s' : StatusManager} → Step s s' → IsStuck t exit s → IsStuck t exit s'
unfolding ask lock leave fall_asleep interrupt handler_lock set_close
Step-IsStuck t exit (asks u place idle) stuck = stuck
Step-IsStuck t exit (wakes u place idle) stuck = stuck
Step-IsStuck t exit (locks u place idle free) (owned, waits, e) = absurd (cc)
Step-IsStuck t exit {s} (leaves u place idle mine) (owned, waits, e) =
    let other : s.handler t ≡ none = ap s.handler (sym (owner_same owned mine)) ∙ idle in
    absurd (cc)
Step-IsStuck t exit {s} (falls_asleep u place idle mine) (owned, waits, e) =
    let other : s.handler t ≡ none = ap s.handler (sym (owner_same owned mine)) ∙ idle in
    absurd (cc)
Step-IsStuck t exit {s} (interrupts u idle) (owned, waits, e) =
    (owned, put_same t u s.handler waits, e)
Step-IsStuck t exit (handler_locks u asked free) (owned, waits, e) = absurd (cc)
Step-IsStuck t exit {s} (sets_close u asked mine) (owned, waits, e) =
    let other : s.handler t ≡ some true = ap s.handler (sym (owner_same owned mine)) ∙ asked in
    absurd (cc)

Steps-IsStuck :
    (t : ℕ) (exit : Bool) {s s' : StatusManager} → Steps s s' → IsStuck t exit s → IsStuck t exit s'
Steps-IsStuck t exit still stuck = stuck
Steps-IsStuck t exit (further step steps) stuck =
    Steps-IsStuck t exit steps (Step-IsStuck t exit step stuck)

-- When SIGINT reaches a thread that has the mutex, in `is_close` or `wait_for_signal`, then whatever the threads
-- do afterwards, that thread keeps the mutex, its handler waits for it, and `_exit` stays as it was:
-- the program never sees the signal.
pub interrupt-IsStuck :
    (t : ℕ) (s s' : StatusManager)
    → s.owner ≡ some t
    → Steps (interrupt t s) s'
    → (s'.owner ≡ some t) × (s'.handler t ≡ some false) × (s'.exit ≡ s.exit)
unfolding interrupt
interrupt-IsStuck t s s' owned steps =
    Steps-IsStuck t s.exit steps (owned, rw (==_refl t) refl, refl)
