-- ===== src/TcpServer/Restart.antt =====
-- `start` and `stop`, and what a second round of them does.
use small_rpc.Prelude.{
  ℕ, zero, suc, ◌≤◌, ◌<◌, ◌≡◌, refl, arith, some, none, true, false, Run, returns, fault, ◌>>=◌,
  lt→ltb, le→ltb, replicate, pos,
}
use small_rpc.TcpServer.{
  Server, max_thread_num, new_server, clamp, set_thread_num, start_subs, start, join_first, stop,
}

-- `start` and then `stop`.
unfoldable pub round : Server → Run Server
round s = start s >>= stop

join_first-replicate : (n : ℕ) → join_first n (replicate n true) ≡ returns (replicate n false)
unfolding join_first
join_first-replicate zero = refl
join_first-replicate (suc n) = rw (join_first-replicate n) refl

-- A server whose number of threads is set to `n`.
abbrev pub with_threads : ℕ → Server
with_threads n = set_thread_num (pos n) new_server

-- What is left after `start` and `stop` with `n` threads.
abbrev pub stopped : ℕ → Server
stopped n = record {
  thread_num = n;
  main_thread = false;
  next_el = some 0;
  sub_els = none;
  sub_threads = replicate n false;
}

-- With 0 < n ≤ 144 threads, `start` and then `stop` joins every thread, the main one too.
pub round-stops :
    (n : ℕ) → 0 < n → n ≤ max_thread_num → round (with_threads n) ≡ returns (stopped n)
unfolding round start start_subs stop set_thread_num clamp new_server
round-stops n some_thread few =
    rw (clamp, le→ltb max_thread_num n few)
      (rw (start_subs, lt→ltb 0 n some_thread) (rw (join_first-replicate n) refl))

-- With 0 < n ≤ 144 threads, a server that was started and stopped cannot be started and stopped again:
-- the threads that are joined already are joined once more.
pub round_twice : (n : ℕ) → 0 < n → n ≤ max_thread_num → (round (with_threads n) >>= round) ≡ fault
unfolding round start start_subs stop join_first
round_twice zero some_thread few = absurd (omega arith)
round_twice (suc n) some_thread few =
    rw (round-stops (suc n) some_thread few) (rw (start_subs, lt→ltb 0 (suc n) some_thread) refl)
