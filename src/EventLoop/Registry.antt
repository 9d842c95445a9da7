-- ===== src/EventLoop/Registry.antt =====
-- The channels that an event loop knows.
use small_rpc.Prelude.{ℕ, ◌≡◌, refl, false, ◌&&◌, ◌==◌, if◌then◌else◌, Bool-cases, inl, inr}
use small_rpc.TimeStamp.{TimeStamp}
use small_rpc.EventLoop.{EventLoop, remove_channel, has_channel, set_entry, entry_is}

module _ {F : Type 0} where
  -- `remove_channel` with the time that a channel is known with makes it unknown with any time; with
  -- another time it changes nothing, so that a late call for a channel whose address was
  -- given to another one does not remove that one.
  pub has_channel-remove_channel :
      (c d : ℕ) (ts at : TimeStamp) (s : EventLoop F)
      → has_channel d at (remove_channel c ts s)
        ≡ (if d == c && has_channel c ts s then false else has_channel d at s)
  unfolding has_channel remove_channel set_entry entry_is
  has_channel-remove_channel c d ts at s = elim (Bool-cases (entry_is ts (s.channels c))) [
    | inl known ↦ elim (Bool-cases (d == c)) [
      | inl same ↦ rw (known, same) refl
      | inr other ↦ rw (known, other) refl
    ]
    | inr unknown ↦ elim (Bool-cases (d == c)) [
      | inl same ↦ rw (unknown, same) refl
      | inr other ↦ rw (unknown, other) refl
    ]
  ]
