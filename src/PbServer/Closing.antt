-- ===== src/PbServer/Closing.antt =====
-- What is left of a connection that was closed.
use small_rpc.Prelude.{
  ap, ap₂, sym, ◌∙◌, ℕ, ◌≡◌, ◌≢◌, refl, true, false, [], ◌∷◌, ◌++◌, none, some, returns, ==_refl, ℤ,
  pos, negsuc, subst,
}
use small_rpc.EventLoop.{Channel, Epoll, remove_channel, has_channel, entry_is, set_entry}
use small_rpc.EventLoop.Watch.{entry_of, IsSynced, update_channel-Updates}
use small_rpc.PbServer.Handlers.{World, update, close_callback, timeout_callback}
use small_rpc.TcpConnection.{TcpConnection, set_event}
use small_rpc.TimeStamp.{TimeStamp, same_time, eqb_ℤ}

eqb_ℤ_refl : (a : ℤ) → eqb_ℤ a a ≡ true
unfolding eqb_ℤ
eqb_ℤ_refl (pos n) = ==_refl n
eqb_ℤ_refl (negsuc n) = ==_refl n

pub same_time_refl : (t : TimeStamp) → same_time t t ≡ true
unfolding same_time
same_time_refl t = rw (eqb_ℤ_refl t.sec, eqb_ℤ_refl t.msec) refl

module _ {K : Type 0} (E : Epoll K) where
  -- The loop knows the connection, epoll watches what its channel believes, and the channel has an event
  -- that it wants and one that epoll was told.
  pub record IsOpen (c : TcpConnection) (w : World K) : Type 0 where
    pub synced : IsSynced E c.channel w.kernel
    pub known : w.el.channels c.address ≡ some c.ts
    pub wants : c.channel.event ≢ 0
    pub watches : c.channel.sevent ≢ 0

  -- What the connection is open by has not changed.
  pub IsOpen-same :
      {c c' : TcpConnection} {w w' : World K}
      → IsOpen c w
      → c'.channel ≡ c.channel
      → c'.address ≡ c.address
      → c'.ts ≡ c.ts
      → w'.kernel ≡ w.kernel
      → w'.el.channels ≡ w.el.channels
      → IsOpen c' w'
  IsOpen-same o channel address ts kernel channels = record {
    synced =
        ap₂ (λ k (ch : Channel). E.watched k ch.fd) kernel channel
        ∙ o.synced
        ∙ sym (ap (λ (ch : Channel). entry_of ch.sevent) channel);
    known = ap₂ (λ entries a. entries a) channels address ∙ o.known ∙ sym (ap some ts);
    wants = λ e. o.wants (sym (ap (λ (ch : Channel). ch.event) channel) ∙ e);
    watches = λ e. o.watches (sym (ap (λ (ch : Channel). ch.sevent) channel) ∙ e);
  }

  pub update_event :
      (event : ℕ) (c : TcpConnection) (w : World K)
      → IsOpen c w
      → (k' : K) × (update E (set_event event c) w
          ≡ returns (
            record c { channel = record c.channel { event = event; sevent = event } },
            record w { kernel = k' },
          ))
        × IsSynced E (record c.channel { event = event; sevent = event }) k'
  unfolding update set_event
  update_event event c w o =
      let (k', ok, synced') =
        update_channel-Updates E (record c.channel { event = event }) w.kernel o.synced
          (λ (none_yet, _, _). o.watches none_yet) in
      (k', rw ok refl, synced')

  unknown :
      (c : TcpConnection) (w : World K) (at : TimeStamp)
      → w.el.channels c.address ≡ some c.ts
      → has_channel c.address at (remove_channel c.address c.ts w.el) ≡ false
  unfolding has_channel remove_channel entry_is set_entry
  unknown c w at known = rw (known, same_time_refl c.ts, ==_refl c.address) refl

  -- Closing an open connection does not fault: epoll stops watching its descriptor, and its loop does not
  -- know it any longer with any time. The descriptor is given to `::close` twice.
  pub close_callback-closes :
      (c : TcpConnection) (w : World K)
      → IsOpen c w
      → (w' : World K) × (close_callback E c w ≡ returns (none, w'))
        × (E.watched w'.kernel c.channel.fd ≡ none)
        × ((at : TimeStamp) → has_channel c.address at w'.el ≡ false)
        × (w'.closed ≡ w.closed ++ c.channel.fd ∷ c.channel.fd ∷ [])
  unfolding close_callback entry_of
  close_callback-closes c w o =
      let (k', ok, synced) = update_event 0 c w o in
      (
        record w {
          kernel = k';
          el = remove_channel c.address c.ts w.el;
          closed = w.closed ++ c.channel.fd ∷ c.channel.fd ∷ [];
        },
        rw ok refl,
        synced,
        λ at. unknown c w at o.known,
        refl,
      )

  -- No timer of a connection that was closed does anything, though the connection's memory is gone.
  pub timeout_callback-close :
      (c : TcpConnection) (w w' : World K) (at : TimeStamp) (id : ℕ)
      → IsOpen c w
      → close_callback E c w ≡ returns (none, w')
      → timeout_callback E at id c w' ≡ returns (some c, w')
  unfolding timeout_callback
  timeout_callback-close c w w' at id o closed =
      let (w'', closed', _, gone, _) = close_callback-closes c w o in
      let same : w'' ≡ w' = cc in
      rw (subst (λ v. has_channel c.address at v.el ≡ false) same (gone at)) refl
