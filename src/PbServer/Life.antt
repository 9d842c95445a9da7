-- ===== src/PbServer/Life.antt =====
-- The life of a connection: what may happen to it between its acceptance and its end, in any order.
use small_rpc.Prelude.{ℕ, ◌≡◌, subst, ◌∙◌, Option, none, some, Run, returns, fault, out_of_fuel}
use small_rpc.Buffer.Socket.{Answer, Arrival}
use small_rpc.EventLoop.{Epoll}
use small_rpc.PbServer.{PbServer}
use small_rpc.PbServer.Keeps.{
  Keeps, handle_events-Keeps, timeout_callback-Keeps, new_connection_callback-Keeps,
}
use small_rpc.PbServer.Closing.{IsOpen, update_event}
use small_rpc.PbServer.Handlers.{
  World, update, new_connection_callback, timeout_callback, server_callbacks,
}
use small_rpc.TcpConnection.{TcpConnection, set_event, handle_events}
use small_rpc.TimeStamp.{TimeStamp}

module _ {K : Type 0} (E : Epoll K) where
  Keeps-returns :
      (r : Run (Option TcpConnection × World K)) (c : TcpConnection) (w : World K)
      → r ≡ returns (some c, w)
      → Keeps E r
      → IsOpen E c w
  Keeps-returns r c w e k = subst (Keeps E) e k

  -- What happens to a connection of the server `s`: its events, its timers, the update that a response
  -- left to its loop, and whatever else the program does to the kernel and the loop's map, so long as
  -- that leaves this descriptor's watch and this address's entry alone.
  pub data Step (s : PbServer) : TcpConnection → World K → TcpConnection → World K → Type 0 where
    event :
        {c c' : TcpConnection} {w w' : World K} (now : TimeStamp) (events : ℕ) (arrival : Arrival)
        (first second : Answer)
        → handle_events (server_callbacks E s now) events arrival first second c w
          ≡ returns (some c', w')
        → Step s c w c' w'
    timer :
        {c c' : TcpConnection} {w w' : World K} (ts : TimeStamp) (id : ℕ)
        → timeout_callback E ts id c w ≡ returns (some c', w')
        → Step s c w c' w'
    queued :
        {c c' : TcpConnection} {w w' : World K} → update E c w ≡ returns (c', w') → Step s c w c' w'
    elsewhere :
        {c : TcpConnection} {w w' : World K}
        → E.watched w'.kernel c.channel.fd ≡ E.watched w.kernel c.channel.fd
        → w'.el.channels c.address ≡ w.el.channels c.address
        → Step s c w c w'

  -- A connection that `new_connection_callback` made for a descriptor that epoll does not watch, after any
  -- steps.
  pub data Lives (s : PbServer) : TcpConnection → World K → Type 0 where
    accepted :
        {c : TcpConnection} {w' : World K} (w : World K) (address fd : ℕ) (made now : TimeStamp)
        → E.watched w.kernel fd ≡ none
        → new_connection_callback E s address fd made now w ≡ returns (some c, w')
        → Lives s c w'
    later : {c c' : TcpConnection} {w w' : World K} → Lives s c w → Step s c w c' w' → Lives s c' w'

  -- The same for a step that keeps the connection.
  abbrev Opens : Run (TcpConnection × World K) → Type 0
  Opens (returns (c, w)) = IsOpen E c w
  Opens fault = Unit
  Opens out_of_fuel = Unit

  update-IsOpen :
      (c c' : TcpConnection) (w w' : World K)
      → IsOpen E c w
      → update E c w ≡ returns (c', w')
      → IsOpen E c' w'
  unfolding set_event
  update-IsOpen c c' w w' o e =
      let (k', ok, synced) = update_event E c.channel.event c w o in
      let opened : Opens (update E c w) =
        rw ok (record { synced = synced; known = o.known; wants = o.wants; watches = o.wants }) in
      subst Opens e opened

  Step-IsOpen :
      (s : PbServer) {c c' : TcpConnection} {w w' : World K}
      → Step s c w c' w'
      → IsOpen E c w
      → IsOpen E c' w'
  Step-IsOpen s {c} {c'} {w} {w'} (event now events arrival first second e) o =
      Keeps-returns _ c' w' e (handle_events-Keeps E s now events arrival first second c w o)
  Step-IsOpen s {c} {c'} {w} {w'} (timer ts id e) o =
      Keeps-returns _ c' w' e (timeout_callback-Keeps E ts id c w o)
  Step-IsOpen s {c} {c'} {w} {w'} (queued e) o = update-IsOpen c c' w w' o e
  Step-IsOpen s (elsewhere watch entry) o = record {
    synced = watch ∙ o.synced;
    known = entry ∙ o.known;
    wants = o.wants;
    watches = o.watches;
  }

  -- In whatever order events, timers and queued updates come, a connection that has not been closed is known
  -- to its loop with its own time, wants an event, and epoll watches exactly the events that the connection
  -- believes, at least one.
  pub Lives-IsOpen : (s : PbServer) {c : TcpConnection} {w : World K} → Lives s c w → IsOpen E c w
  Lives-IsOpen s {c} {w} (accepted before address fd made now free e) =
      Keeps-returns _ c w e (new_connection_callback-Keeps E s address fd made now before free)
  Lives-IsOpen s (later l st) = Step-IsOpen s st (Lives-IsOpen s l)
