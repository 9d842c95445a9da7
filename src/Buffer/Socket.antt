-- ===== src/Buffer/Socket.antt =====
-- `Buffer::write_fd` and `Buffer::read_fd`, net/buffer.cpp. What the system call answers is an
-- argument; the bytes that it took or gave are kept beside the result.
pub mod Stream
pub mod Arrive
use small_rpc.Prelude.{
  ℕ, ◌+◌, Bool, true, false, [], ◌++◌, Bytes, length, take, drop, ltb, ◌==◌, if◌then◌else◌, add64,
  ℤ, pos, negsuc, int_of, Run, returns, fault, ◌>>=◌,
}
use small_rpc.Buffer.{Buffer, readable, writeable, extraable, read_range, write_at, double}

-- `EAGAIN`, `EWOULDBLOCK` and `EINTR` are `try_again`.
pub data Errno : Type 0 where
  try_again broken_pipe other_error : Errno

-- The answer of `::write`: so many bytes were taken, or -1 with an error.
pub data Answer : Type 0 where
  took : ℕ → Answer
  failed : Errno → Answer

pub record Written : Type 0 where
  pub code : ℤ
  pub buffer : Buffer
  pub sent : Bytes

-- -1, 0 or an abort after a failed `::write`.
unfoldable pub give_up : Errno → Buffer → Bytes → Run Written
give_up try_again b sent = returns (record { code = negsuc 0; buffer = b; sent = sent })
give_up broken_pipe b sent = returns (record { code = pos 0; buffer = b; sent = sent })
give_up other_error b sent = fault

-- The second half, with the bytes that the first one sent.
unfoldable pub write_extra : Buffer → Bytes → Answer → Run Written
write_extra b sent (took n) = do
  piece ← read_range b.extra_data b.extra_index n
  returns (record {
    code = int_of (length sent + n);
    buffer = record b { extra_index = add64 b.extra_index n };
    sent = sent ++ piece;
  })
write_extra b sent (failed e) = give_up e b sent

unfoldable pub maybe_write_extra : Buffer → Bytes → Answer → Run Written
maybe_write_extra b sent second =
    if extraable b == 0
    then returns (record { code = int_of (length sent); buffer = b; sent = sent })
    else write_extra b sent second

unfoldable pub write_live : Buffer → Answer → Answer → Run Written
write_live b (took n) second = do
  piece ← read_range b.storage b.rindex n
  maybe_write_extra (record b { rindex = add64 b.rindex n }) piece second
write_live b (failed e) second = give_up e b []

-- `write_fd`, with the answers of the two calls of `::write` that it may make.
unfoldable pub write_fd : Buffer → Answer → Answer → Run Written
write_fd b first second =
    if readable b == 0 then maybe_write_extra b [] second else write_live b first second

-- The answer of `::read`: the bytes that came, none of them at the end of the stream.
pub data Arrival : Type 0 where
  came : Bytes → Arrival
  refused : Errno → Arrival

pub record Received : Type 0 where
  pub code : ℤ
  pub buffer : Buffer

unfoldable pub store_arrival : Buffer → Arrival → Run Received
store_arrival b (came bytes) = do
  stored ← write_at b.storage b.windex bytes
  returns (record {
    code = int_of (length bytes);
    buffer = record b { storage = stored; windex = add64 b.windex (length bytes) };
  })
store_arrival b (refused try_again) = returns (record { code = negsuc 0; buffer = b })
store_arrival b (refused _) = fault

-- `read_fd`: the storage is doubled when it is full.
unfoldable pub read_fd : Buffer → Arrival → Run Received
read_fd b arrival =
    store_arrival (if writeable b == 0 then record b { storage = double b.storage } else b) arrival
