-- ===== src/Tests/Kernel.antt =====
-- A kernel for the tests: it keeps its interest list as a function, and refuses to add a descriptor past
-- its table of 1024.
use small_rpc.EventLoop.{Op, Epoll, add, modify, del}
use small_rpc.Prelude.{
  ℕ, ◌==◌, ==_refl, ltb, if◌then◌else◌, Option, none, some, refl, ◌≡◌, ap, sym, ◌∙◌, Bool-cases,
  inl, inr,
}

abbrev pub Table : Type 0
Table = ℕ → Option ℕ

abbrev pub put : ℕ → Option ℕ → Table → Table
put fd entry k other = if other == fd then entry else k other

abbrev pub change : Option ℕ → ℕ → Table → Option ℕ → Option Table
change entry fd k none = none
change entry fd k (some old) = some (put fd entry k)

abbrev pub insert : ℕ → ℕ → Table → Option ℕ → Option Table
insert fd events k none = if ltb fd 1024 then some (put fd (some events) k) else none
insert fd events k (some old) = none

abbrev pub table_ctl : Op → ℕ → ℕ → Table → Option Table
table_ctl add fd events k = insert fd events k (k fd)
table_ctl modify fd events k = change (some events) fd k (k fd)
table_ctl del fd events k = change none fd k (k fd)

pub insert-some :
    (fd events : ℕ) (k k' : Table) → insert fd events k none ≡ some k' → k' fd ≡ some events
insert-some fd events k k' ok = elim (Bool-cases (ltb fd 1024)) [
  | inl inside ↦
      let stored : some (put fd (some events) k) ≡ some k' = rw inside at ok in
      let same : put fd (some events) k ≡ k' = cc in
      ap (λ (t : Table). t fd) (sym same) ∙ rw (==_refl fd) refl
  | inr past ↦
      let missing : Option Table = none in
      let denied : missing ≡ some k' = rw past at ok in absurd (cc)
]

unfoldable pub table : Epoll Table
table = record {
  ctl = table_ctl;
  watched = λ k fd. k fd;
  ctl_add = λ k k' fd events free ok. insert-some fd events k k' (rw free at ok);
  ctl_mod = λ k fd events old h. (put fd (some events) k, rw h refl, rw (==_refl fd) refl);
  ctl_del = λ k fd events old h. (put fd none k, rw h refl, rw (==_refl fd) refl);
}
