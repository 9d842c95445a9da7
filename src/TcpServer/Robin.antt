-- ===== src/TcpServer/Robin.antt =====
-- New connections go round the event loops.
use small_rpc.Prelude.{
  ℕ, zero, suc, ◌+◌, ◌%◌, ◌<◌, ◌≡◌, refl, arith, some, Run, returns, ◌>>=◌, lt→ltb, ne→==, Bool,
  List, ap,
}
use native.Mathlib.Nat.{mod-add-mod, add_assoc}
use small_rpc.TcpServer.{Server, Loop, sub, in_subs, next_sub, get_next_el}

-- The loop that the last of `k + 1` new connections gets, and the server after it.
unfoldable pub nth_el : ℕ → Server → Run (Loop × Server)
nth_el zero s = get_next_el s
nth_el (suc k) s = get_next_el s >>= λ r. nth_el k r.1

-- A server with `n` sub reactors whose last index is `i`.
abbrev pub turn : ℕ → ℕ → Bool → List Bool → Server
turn n i main_thread threads = record {
  thread_num = n;
  main_thread = main_thread;
  next_el = some i;
  sub_els = some n;
  sub_threads = threads;
}

get_next_el-turn :
    (n i : ℕ) (m : Bool) (ts : List Bool)
    → 0 < n
    → get_next_el (turn n i m ts) ≡ returns (sub ((i + 1) % n), turn n ((i + 1) % n) m ts)
unfolding get_next_el next_sub in_subs
get_next_el-turn n i m ts some_loop =
    let inside : (i + 1) % n < n = omega arith in
    rw (get_next_el, ne→== n 0 (omega arith), next_sub, in_subs, lt→ltb ((i + 1) % n) n inside) refl

-- While there are `n` sub reactors, n > 0, and the last index is `i`, the connection after `k` others
-- goes to the sub reactor `(i + k + 1) % n`; no choice faults.
pub nth_el-turn :
    (k n i : ℕ) (m : Bool) (ts : List Bool)
    → 0 < n
    → nth_el k (turn n i m ts) ≡ returns (sub ((i + k + 1) % n), turn n ((i + k + 1) % n) m ts)
unfolding nth_el
nth_el-turn zero n i m ts some_loop =
    let index : i + 1 ≡ i + 0 + 1 = omega arith in
    rw (get_next_el-turn n i m ts some_loop)
      (ap (λ j. returns (sub (j % n), turn n (j % n) m ts)) index)
nth_el-turn (suc k) n i m ts some_loop =
    let sum : i + 1 + (k + 1) ≡ i + suc k + 1 = omega arith in
    let index : ((i + 1) % n + k + 1) % n ≡ (i + suc k + 1) % n =
      rw (add_assoc ((i + 1) % n) k 1, mod-add-mod (i + 1) n (k + 1)) (ap (λ j. j % n) sum) in
    rw (get_next_el-turn n i m ts some_loop, nth_el-turn k n ((i + 1) % n) m ts some_loop)
      (ap (λ j. returns (sub j, turn n j m ts)) index)
