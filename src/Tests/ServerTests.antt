-- ===== src/Tests/ServerTests.antt =====
-- net/tcpserver.cpp at concrete inputs.
use small_rpc.Prelude.{◌+◌, ◌%◌, ◌≡◌, arith, [], ◌∷◌, true, returns}
use small_rpc.TcpServer.Restart.{round, with_threads, stopped, round-stops}
use small_rpc.TcpServer.Robin.{nth_el, turn, nth_el-turn}
use small_rpc.TcpServer.{sub}

nth_el-turn_example :
    nth_el 4 (turn 3 0 true (true ∷ true ∷ true ∷ []))
    ≡ returns (sub ((0 + 4 + 1) % 3), turn 3 ((0 + 4 + 1) % 3) true (true ∷ true ∷ true ∷ []))
nth_el-turn_example = nth_el-turn 4 3 0 true (true ∷ true ∷ true ∷ []) (omega arith)

round-stops_example : round (with_threads 4) ≡ returns (stopped 4)
round-stops_example = round-stops 4 (omega arith) (omega arith)
