-- ===== src/TcpServer.antt =====
-- net/tcpserver.h and net/tcpserver.cpp: the threads of the event loops, and the round robin over the
-- loops. A thread is `true` while it can be joined; joining it otherwise is a fault.
pub mod Robin
pub mod Restart
use small_rpc.Prelude.{
  ℕ, zero, suc, ◌+◌, ◌%◌, Bool, true, false, List, [], ◌∷◌, ◌++◌, ltb, if◌then◌else◌, ◌==◌, ℤ, pos,
  negsuc, Option, none, some, Run, returns, fault, ◌>>=◌, replicate,
}

abbrev pub max_thread_num : ℕ
max_thread_num = 144

pub record Server : Type 0 where
  pub thread_num : ℕ
  pub main_thread : Bool
  -- `none` is -1.
  pub next_el : Option ℕ
  -- How many loops `_sub_els` holds; `none` is the null pointer.
  pub sub_els : Option ℕ
  pub sub_threads : List Bool

-- `TCPServer()`
unfoldable pub new_server : Server
new_server = record {
  thread_num = 0;
  main_thread = false;
  next_el = none;
  sub_els = none;
  sub_threads = [];
}

-- `set_thread_num`, which clamps its argument.
unfoldable pub clamp : ℤ → ℕ
clamp (pos n) = if ltb max_thread_num n then max_thread_num else n
clamp (negsuc n) = 0

unfoldable pub set_thread_num : ℤ → Server → Server
set_thread_num n s = record s { thread_num = clamp n }

-- `start`; assigning to a thread that can still be joined ends the program.
unfoldable pub start_subs : Server → Server
start_subs s =
    if ltb 0 s.thread_num
    then record s {
      sub_els = some s.thread_num;
      sub_threads = s.sub_threads ++ replicate s.thread_num true;
      next_el = some 0;
    }
    else s

unfoldable pub start : Server → Run Server
start s = if s.main_thread then fault else returns (record (start_subs s) { main_thread = true })

-- `_sub_reactor_threads[i].join()` for the first `n` threads.
unfoldable pub join_first : ℕ → List Bool → Run (List Bool)
join_first zero threads = returns threads
join_first (suc n) [] = fault
join_first (suc n) (false ∷ threads) = fault
join_first (suc n) (true ∷ threads) = do rest ← join_first n threads; returns (false ∷ rest)

-- `stop`: the threads stay in the vector, and `_next_el` keeps its value.
unfoldable pub stop : Server → Run Server
stop s = elim s.sub_els [
  | none ↦ returns (record s { main_thread = false })
  | some n ↦ join_first s.thread_num s.sub_threads >>= λ threads.
      returns (record s { main_thread = false; sub_els = none; sub_threads = threads })
]

-- The loop of a new connection: the main one, or one of `_sub_els`.
pub data Loop : Type 0 where
  main : Loop
  sub : ℕ → Loop

-- `_get_next_el`; an index outside `_sub_els` is a fault, and so is a remainder by zero.
unfoldable pub in_subs : ℕ → Option ℕ → Run Loop
in_subs i none = fault
in_subs i (some n) = if ltb i n then returns (sub i) else fault

unfoldable pub next_sub : Server → ℕ → Run (Loop × Server)
next_sub s i = in_subs i s.sub_els >>= λ l. returns (l, record s { next_el = some i })

unfoldable pub get_next_el : Server → Run (Loop × Server)
get_next_el s = elim s.next_el [
  | none ↦ returns (main, s)
  | some i ↦ elim (s.thread_num == 0) [ true ↦ fault | false ↦ next_sub s ((i + 1) % s.thread_num) ]
]
