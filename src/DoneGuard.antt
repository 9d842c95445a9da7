-- ===== src/DoneGuard.antt =====
-- base/done_guard.h: a closure that is run when its guard is left. What runs is recorded in order.
use small_rpc.Prelude.{
  List, [], ◌∷◌, ◌++◌, ◌≡◌, refl, Option, none, some, append_assoc, append-nil, sym,
}

-- `F` stands for `google::protobuf::Closure*`; `none` is the null pointer.
module _ (F : Type 0) where
  pub record Guard : Type 0 where
    pub done : Option F
    pub ran : List F

  -- The calls that a scope makes on its guard.
  pub data Call : Type 0 where
    release_call : Call
    reset_call : Option F → Call

module _ {F : Type 0} where
  -- `DoneGuard(done)`
  unfoldable pub new_guard : Option F → Guard F
  new_guard done = record { done = done; ran = [] }

  abbrev pub held : Option F → List F
  held none = []
  held (some f) = f ∷ []

  -- `_run`
  unfoldable pub run_done : Guard F → Guard F
  run_done g = elim g.done [ none ↦ g | some f ↦ record { done = none; ran = g.ran ++ f ∷ [] } ]

  unfoldable pub release : Guard F → Guard F
  release g = record g { done = none }

  unfoldable pub reset : Option F → Guard F → Guard F
  reset done g = record (run_done g) { done = done }

  unfoldable pub call : Call F → Guard F → Guard F
  call release_call g = release g
  call (reset_call done) g = reset done g

  -- A scope: the calls, and then the destructor.
  unfoldable pub scope : List (Call F) → Guard F → Guard F
  scope [] g = run_done g
  scope (c ∷ calls) g = scope calls (call c g)

  -- The closures that are not released before the next `reset` or the end.
  unfoldable pub unreleased : Option F → List (Call F) → List F
  unreleased f [] = held f
  unreleased f (release_call ∷ calls) = unreleased none calls
  unreleased f (reset_call g ∷ calls) = held f ++ unreleased g calls

  run_done-ran :
      (f : Option F) (ran : List F)
      → (run_done (record { done = f; ran = ran })).ran ≡ ran ++ held f
  unfolding run_done
  run_done-ran none ran = sym (append-nil ran)
  run_done-ran (some f) ran = refl

  scope-ran :
      (calls : List (Call F)) (f : Option F) (ran : List F)
      → (scope calls (record { done = f; ran = ran })).ran ≡ ran ++ unreleased f calls
  unfolding scope call release reset unreleased
  scope-ran [] f ran = run_done-ran f ran
  scope-ran (release_call ∷ calls) f ran = scope-ran calls none ran
  scope-ran (reset_call g ∷ calls) f ran =
      rw (scope-ran calls g (run_done (record { done = f; ran = ran })).ran, run_done-ran f ran)
        (append_assoc ran (held f) (unreleased g calls))

  -- Whatever calls a scope makes on its guard, each closure that the guard was given and that is not
  -- released runs exactly once, in the order in which they were given.
  pub scope-unreleased :
      (calls : List (Call F)) (f : Option F) → (scope calls (new_guard f)).ran ≡ unreleased f calls
  unfolding new_guard
  scope-unreleased calls f = scope-ran calls f []
