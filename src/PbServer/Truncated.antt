-- ===== src/PbServer/Truncated.antt =====
-- A response whose payload the socket does not take at once.
use small_rpc.Prelude.{
  ℕ, ◌≡◌, ◌≢◌, refl, Bool, true, Bool-cases, inl, inr, ltb_ℤ, ap, if◌then◌else◌, pos, ℤ, ◌∙◌,
  length, Bytes, ◌++◌, some, none, returns,
}
use small_rpc.Buffer.{readable, clear}
use small_rpc.Buffer.Contents.{Holds, outgoing, readable-Holds, clear-Holds}
use small_rpc.Buffer.Socket.{Answer, Arrival, took, Written, write_fd}
use small_rpc.Buffer.Socket.Stream.{Extra, Takes, write_fd-outgoing}
use small_rpc.EventLoop.{Epoll}
use small_rpc.EventLoop.Watch.{entry_of}
use small_rpc.PbServer.{PbServer}
use small_rpc.PbServer.Closing.{IsOpen-same, IsOpen, update_event}
use small_rpc.PbServer.Handlers.{
  World, arm, write_complete_callback, after_write_of, listen_again, server_callbacks,
}
use small_rpc.Protocol.{ConnType, short, single, pool}
use small_rpc.Protocols.{AnyContext, base_of}
use small_rpc.TcpConnection.{
  TcpConnection, epollin, epollout, handle_events, handle_output, after_write, call_set,
}
use small_rpc.TimeStamp.{TimeStamp}

module _ {K : Type 0} (E : Epoll K) where
  -- The connection has forgotten its response and waits for input only.
  abbrev pub Forgets : ℕ → TcpConnection × World K → Type 0
  Forgets fd (c, w) =
      (c.context ≡ none) × (readable c.wbuf ≡ 0) × (E.watched w.kernel fd ≡ some epollin)

  arm-Forgets :
      (fd : ℕ) (ms : ℤ) (is_read : Bool) (now : TimeStamp) (c : TcpConnection) (w : World K)
      → Forgets fd (c, w)
      → Forgets fd (arm E ms is_read now c w)
  unfolding arm
  arm-Forgets fd ms is_read now c w forgets = elim (Bool-cases (ltb_ℤ (pos 0) ms)) [
    | inl on ↦ rw on forgets
    | inr off ↦ rw off forgets
  ]

  after_write_of-kept :
      (kind : ConnType) (s : PbServer) (now : TimeStamp) (c : TcpConnection) (w : World K)
      → kind ≢ short
      → after_write_of E kind s now c w ≡ listen_again E s now c w
  unfolding after_write_of
  after_write_of-kept short s now c w kept = absurd (kept refl)
  after_write_of-kept single s now c w kept = refl
  after_write_of-kept pool s now c w kept = refl

  write_complete_callback-Forgets :
      (s : PbServer) (now : TimeStamp) (c : TcpConnection) (ctx : AnyContext) (w : World K)
      {live : Bytes}
      → IsOpen E c w
      → c.context ≡ some ctx
      → (base_of ctx).conn_type ≢ short
      → Holds c.wbuf live
      → (c' : TcpConnection) × (w' : World K) × (write_complete_callback E s now c w
          ≡ returns (some c', w'))
        × Forgets c.channel.fd (c', w')
  unfolding write_complete_callback listen_again entry_of
  write_complete_callback-Forgets s now c ctx w o has_context kept h =
      let bare : TcpConnection = record c {
        context = none;
        rbuf = clear c.rbuf;
        wbuf = clear c.wbuf;
      } in
      let (k', ok, synced) =
        update_event E epollin bare w (IsOpen-same E o refl refl refl refl refl) in
      let armed =
        arm E s.read_timeout_ms true now
          (record bare { channel = record c.channel { event = epollin; sevent = epollin } })
          (record w { kernel = k' }) in
      (
        armed.0,
        armed.1,
        rw has_context
            (rw (after_write_of-kept (base_of ctx).conn_type s now bare w kept) (rw ok refl)),
        arm-Forgets c.channel.fd s.read_timeout_ms true now _ _
            (refl, readable-Holds (clear-Holds h), synced),
      )

  -- When the socket takes the whole queue of a response on a connection that is kept, and only a part of the
  -- extra data, which carries the payload, or fails with other than an abort, the server counts the response as
  -- written: it forgets it and waits for input only, so that the bytes in `outgoing r.buffer`, those
  -- that the socket did not take, are not sent.
  pub handle_events_truncates :
      (s : PbServer) (now : TimeStamp) (arrival : Arrival) (second : Answer) (c : TcpConnection)
      (ctx : AnyContext) (w : World K) {live extra : Bytes}
      → IsOpen E c w
      → c.connected ≡ true
      → c.context ≡ some ctx
      → (base_of ctx).conn_type ≢ short
      → Holds c.wbuf live
      → Extra c.wbuf extra
      → Takes extra second
      → (r : Written) × (write_fd c.wbuf (took (length live)) second ≡ returns r)
        × (r.sent ++ outgoing r.buffer ≡ outgoing c.wbuf)
        × (c' : TcpConnection) × (w' : World K) × (handle_events
              (server_callbacks E s now)
              epollout
              arrival
              (took (length live))
              second
              c
              w
            ≡ returns (some c', w'))
        × Forgets c.channel.fd (c', w')
  unfolding handle_events handle_output after_write call_set server_callbacks
  handle_events_truncates s now arrival second c ctx w {live} {extra} o connected has_context kept h
        e takes =
      let cs = server_callbacks E s now in
      let (r, wrote, stream, empty) = write_fd-outgoing second h e takes in
      let (c', w', done, forgets) =
        write_complete_callback-Forgets s now (record c { wbuf = r.buffer }) ctx w
          (IsOpen-same E o refl refl refl refl refl) has_context kept empty in
      (
        r,
        wrote,
        stream,
        c',
        w',
        ap
              (λ on.
                if on
                then handle_output cs (took (length live)) second c w
                else call_set cs.client_conn c w)
              connected
            ∙ rw wrote (rw (readable-Holds empty) done),
        forgets,
      )
