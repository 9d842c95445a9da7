-- ===== src/Tests/BufferTests.antt =====
-- net/buffer.h and net/buffer.cpp at concrete inputs: tests/test_buffer.cpp.
use small_rpc.Prelude.{
  ℕ, ◌+◌, ◌*◌, ◌<◌, ◌≤◌, ◌≡◌, ◌≢◌, refl, [], ◌∷◌, ◌++◌, codes, Run, returns, fault, ◌>>=◌, Bytes,
  arith, length, int_of, some, none, Option,
}
use small_rpc.Buffer.{
  Buffer, new_sized, readable, writeable, append_mem, append_string, append_uint32, copy_in,
  write_at, double, find_pair, find_crlf, read_range,
}
use small_rpc.Buffer.Append.{Appended, append_mem-Holds, append_mem_overflow}
use small_rpc.Buffer.Contents.{Holds, outgoing}
use small_rpc.Buffer.Socket.{took, Written, write_fd, came, Received, read_fd}
use small_rpc.Buffer.Socket.Arrive.{read_fd-Holds}
use small_rpc.Buffer.Socket.Stream.{Extra, write_fd-outgoing, write_fd_overtakes}

sizes : Run (ℕ × ℕ)
sizes = do
  b1 ← append_string (new_sized 12) (codes "helloworld")
  b2 ← append_uint32 b1 0x19951028
  returns (readable b2, writeable b2)

sizes_after : sizes ≡ returns (14, 10)
unfolding sizes append_string append_uint32 append_mem copy_in write_at double new_sized readable
    writeable small_rpc.Prelude.be_bytes
sizes_after = refl

crlf_found :
    find_crlf
      (record {
        rindex = 2;
        windex = 12;
        storage = codes "hello\r\nworld";
        extra_index = 0;
        extra_data = [];
      })
      10
    ≡ returns (some 3)
unfolding find_crlf find_pair read_range
crlf_found = refl

-- "b" was read, "cd" is queued, there is room for one byte, and "yz" is left of the extra data.
abbrev queue : Buffer
queue = record {
  rindex = 1;
  windex = 3;
  storage = codes "bcd_";
  extra_index = 1;
  extra_data = codes "xyz";
}

queue-Holds : Holds queue (codes "cd")
queue-Holds = record {
  dead = codes "b";
  room = codes "_";
  splits = refl;
  starts = refl;
  ends = refl;
  fits = omega arith;
}

queue-Extra : Extra queue (codes "yz")
queue-Extra = record { gone = codes "x"; splits = refl; starts = refl; fits = omega arith }

append_mem-Holds_example :
    (b' : Buffer) × (append_mem queue (codes "efg") ≡ returns b')
    × Holds b' (codes "cdefg")
    × Appended queue (codes "efg") b'
append_mem-Holds_example =
    append_mem-Holds (codes "efg") queue-Holds (omega arith) (omega arith) (omega arith)

append_mem_overflow_example : append_mem queue (codes "efghij") ≡ fault
append_mem_overflow_example = append_mem_overflow queue (codes "efghij") (omega arith) (omega arith)

write_fd-outgoing_example :
    (w : Written) × (write_fd queue (took 2) (took 1) ≡ returns w)
    × (w.sent ++ outgoing w.buffer ≡ outgoing queue)
    × Holds w.buffer []
write_fd-outgoing_example =
    write_fd-outgoing (took 1) queue-Holds queue-Extra (codes "y", codes "z", refl, refl)

write_fd_overtakes_example :
    (w : Written) × (write_fd queue (took 1) (took 1) ≡ returns w)
    × (w.sent ≡ codes "cy")
    × ((tail : Bytes) → outgoing queue ≢ w.sent ++ tail)
write_fd_overtakes_example =
    write_fd_overtakes (codes "c") [] [] (codes "z") queue-Holds queue-Extra (omega arith)
      (omega arith)

read_fd-Holds_example :
    (r : Received) × (read_fd queue (came (codes "e")) ≡ returns r)
    × (r.code ≡ int_of 1)
    × Holds r.buffer (codes "cde")
read_fd-Holds_example =
    read_fd-Holds (codes "e") queue-Holds (omega arith) (unfold writeable in omega arith)
