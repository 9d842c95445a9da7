-- ===== src/PbClient/Waiting.antt =====
-- A synchronous call whose response never comes.
use small_rpc.Prelude.{
  ℕ, zero, suc, ◌+◌, ◌%◌, ◌^◌, ◌≡◌, ◌≢◌, refl, arith, true, false, ne→==, [], length,
  take-append-drop, replicate, Bytes, Option, some, returns, out_of_fuel, pos, leb, le→leb,
}
use small_rpc.Buffer.{Buffer, writeable, write_at}
use small_rpc.Buffer.Contents.{Holds, Holds-bounds}
use small_rpc.Buffer.Socket.{came, read_fd, store_arrival}
use small_rpc.EventLoop.{Epoll}
use small_rpc.PbClient.{
  PbClient, after_parse, data_read_callback, session_done, read_once, read_all,
}
use small_rpc.Protocol.{
  ParseProtocolStatus, success, error, no_enough_data, try_another_protocol, part_success,
}
use small_rpc.Protocols.{AnyContext, gives, parse_response}
use small_rpc.TcpConnection.{TcpConnection}

-- The end of the stream leaves a buffer with room as it is.
pub read_fd_end :
    {b : Buffer} {live : Bytes}
    → Holds b live
    → writeable b ≢ 0
    → read_fd b (came []) ≡ returns (record { code = pos 0; buffer = b })
unfolding read_fd store_arrival write_at
read_fd_end {b} h room =
    let at : (b.windex + 0) % 2 ^ 64 ≡ b.windex = omega (arith, Holds-bounds h) in
    let start : b.windex + 0 ≡ b.windex = omega arith in
    let inside : leb b.windex (length b.storage) ≡ true =
      le→leb b.windex (length b.storage) (omega (arith, Holds-bounds h)) in
    rw (ne→== (writeable b) 0 room)
      (rw (at, start) (rw (inside, take-append-drop b.windex b.storage) refl))

-- A connection with a context, in a session whose response is not read.
abbrev pub in_call : AnyContext → TcpConnection → TcpConnection
in_call ctx c = record c { context = some ctx }

abbrev pub waiting : {K : Type 0} {D : Type 0} → Option D → PbClient K D → PbClient K D
waiting closure w = record w {
  session = some (record { done = closure; read_response_done = false });
}

module _ {K D : Type 0} (E : Epoll K) where
  after_parse_goes_on :
      (st : ParseProtocolStatus) (c : TcpConnection) (w : PbClient K D)
      → st ≢ success
      → after_parse E st c w ≡ returns (some c, w)
  unfolding after_parse
  after_parse_goes_on success c w other = absurd (other refl)
  after_parse_goes_on error c w other = refl
  after_parse_goes_on no_enough_data c w other = refl
  after_parse_goes_on try_another_protocol c w other = refl
  after_parse_goes_on part_success c w other = refl

  -- Let the read buffer be one on which the parser gives a status other than success, at which it stays:
  -- it lacks data, or has met an error. Once the server has closed the connection, so that each read
  -- gives the end of the stream, a synchronous call reads for ever: no number of reads ends its loop.
  pub read_all_hangs :
      (n : ℕ) (st : ParseProtocolStatus) (ctx : AnyContext) (closure : Option D) (c : TcpConnection)
      (w : PbClient K D) {live : Bytes}
      → Holds c.rbuf live
      → writeable c.rbuf ≢ 0
      → parse_response ctx c.rbuf ≡ gives st (some ctx) c.rbuf
      → st ≢ success
      → read_all E (replicate n (came [])) (in_call ctx c) (waiting closure w) ≡ out_of_fuel
  unfolding read_all session_done read_once data_read_callback
  read_all_hangs zero st ctx closure c w h room stays other = refl
  read_all_hangs (suc n) st ctx closure c w h room stays other = rw (read_fd_end h room) (
      rw (stays) (
        rw (after_parse_goes_on st (in_call ctx c) (waiting closure w) other)
          (read_all_hangs n st ctx closure c w h room stays other)))
