-- ===== src/EventLoop/Watch.antt =====
-- What epoll watches of a channel.
use small_rpc.Prelude.{
  ℕ, ◌≡◌, ◌≢◌, ◌⊎◌, refl, ◌==◌, if◌then◌else◌, Option, none, some, Option-cases, returns, fault,
  arith, ==_iff, Bool-cases, inl, inr, ap, subst,
}
use small_rpc.EventLoop.{
  Channel, Op, add, modify, del, Epoll, epoll_ctl, update_changed, update_channel,
}

-- An event mask as an entry of the interest list: no events, no entry.
unfoldable pub entry_of : ℕ → Option ℕ
entry_of events = if events == 0 then none else some events

module _ {K : Type 0} (E : Epoll K) where
  -- Epoll watches the events that the channel believes.
  abbrev pub IsSynced : Channel → K → Type 0
  IsSynced c k = E.watched k c.fd ≡ entry_of c.sevent

  epoll_ctl_ok :
      (op : Op) (c : Channel) (k k' : K)
      → E.ctl op c.fd c.event k ≡ some k'
      → epoll_ctl E op c k ≡ returns (record c { sevent = c.event }, k')
  unfolding epoll_ctl
  epoll_ctl_ok op c k k' ok = rw (epoll_ctl, ok) refl

  epoll_ctl_refused :
      (op : Op) (c : Channel) (k : K) → E.ctl op c.fd c.event k ≡ none → epoll_ctl E op c k ≡ fault
  unfolding epoll_ctl
  epoll_ctl_refused op c k denied = rw (epoll_ctl, denied) refl

  -- Epoll would have to add the channel's descriptor, and does not.
  abbrev pub IsRefused : Channel → K → Type 0
  IsRefused c k = (c.sevent ≡ 0) × (c.event ≢ 0) × (E.ctl add c.fd c.event k ≡ none)

  -- The update returns, the channel knows what it asked for, and epoll watches just that.
  abbrev pub Updates : Channel → K → Type 0
  Updates c k =
      (k' : K) × (update_channel E c k ≡ returns (record c { sevent = c.event }, k'))
      × IsSynced (record c { sevent = c.event }) k'

  -- Where epoll watches what the channel believes, `update_channel` aborts only when epoll refuses to add a
  -- descriptor that it does not watch yet; otherwise it returns, epoll watches exactly the events that
  -- the channel wants, none included, and the channel knows it.
  pub update_channel-IsSynced :
      (c : Channel) (k : K)
      → IsSynced c k
      → (IsRefused c k × (update_channel E c k ≡ fault)) ⊎ Updates c k
  unfolding update_channel update_changed entry_of
  update_channel-IsSynced c k synced = elim (Bool-cases (c.sevent == c.event)) [
    | inl same ↦
        let e : c.sevent ≡ c.event = (==_iff c.sevent c.event).0 same in
        inr (
          k,
          rw same (ap (λ x. returns (record c { sevent = x }, k)) e),
          subst (λ x. E.watched k c.fd ≡ entry_of x) e synced,
        )
    | inr changed ↦ elim (Bool-cases (c.sevent == 0)) [
      | inl fresh ↦ elim (Bool-cases (c.event == 0)) [
        | inl nothing ↦ absurd (ground arith)
        | inr wanted ↦ elim (Option-cases (E.ctl add c.fd c.event k)) [
          | inl refused ↦ inl (
            ((==_iff c.sevent 0).0 fresh, (λ e. absurd (ground (arith, e, wanted))), refused),
            rw (changed, fresh, wanted) (epoll_ctl_refused add c k refused),
          )
          | inr (k', ok) ↦ inr (
            k',
            rw (changed, fresh, wanted) (epoll_ctl_ok add c k k' ok),
            rw wanted (E.ctl_add k k' c.fd c.event (rw fresh at synced) ok),
          )
        ]
      ]
      | inr known ↦ elim (Bool-cases (c.event == 0)) [
        | inl nothing ↦
            let (k', ok, w) = E.ctl_del k c.fd c.event c.sevent (rw known at synced) in
            inr (k', rw (changed, known, nothing) (epoll_ctl_ok del c k k' ok), rw nothing w)
        | inr wanted ↦
            let (k', ok, w) = E.ctl_mod k c.fd c.event c.sevent (rw known at synced) in
            inr (k', rw (changed, known, wanted) (epoll_ctl_ok modify c k k' ok), rw wanted w)
      ]
    ]
  ]

  -- Where epoll has nothing to refuse.
  pub update_channel-Updates : (c : Channel) (k : K) → IsSynced c k → ¬ IsRefused c k → Updates c k
  update_channel-Updates c k synced granted = elim (update_channel-IsSynced c k synced) [
    | inl (refused, _) ↦ absurd (granted refused)
    | inr updates ↦ updates
  ]
