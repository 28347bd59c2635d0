-- ===== src/Cqrs/Middleware/Transactions.antt =====
-- The unit of work as middleware against a `with` statement on it.
use hexastack.Base.{
  if◌then◌else◌, Bool, true, false, Option, none, some, ◌≡◌, ◌≢◌, refl, ◌∙◌, arith,
}
use hexastack.Base.Outcome.{Outcome, returned, raised, interrupted, Exn, unit_of_work_error}
use hexastack.Core.Registry.{Action, Handler}
use hexastack.Core.UnitOfWork.{commit, rollback, UnitOfWork, exit, scope}
use hexastack.Cqrs.Middleware.{
  coroutine, other_kind, Answer, plain, awaitable, drive, exit_caught, in_transaction, unit_of_work,
}

exit_caught-exit :
    {A : Type 0} (r : Outcome A × UnitOfWork)
    → (r.0 ≢ interrupted → exit_caught r ≡ exit r) × (r.0 ≡ interrupted → exit_caught r ≡ r)
unfolding exit_caught
exit_caught-exit (returned a, u) = (λ h. refl, λ h. absurd (ground (arith, h)))
exit_caught-exit (raised e, u) = (λ h. refl, λ h. absurd (ground (arith, h)))
exit_caught-exit (interrupted, u) = (λ h. absurd (h refl), λ h. refl)

-- The answer is not an awaitable that is no coroutine.
abbrev pub NoFuture : {V W : Type 0} → Outcome (Option (Answer V W)) → Type 0
NoFuture (returned none) = Unit
NoFuture (returned (some (plain v))) = Unit
NoFuture (returned (some (awaitable coroutine c))) = Unit
NoFuture (returned (some (awaitable other_kind c))) = ⊥
NoFuture (raised e) = Unit
NoFuture interrupted = Unit

module _ {M V : Type 0} (instance_ : M) where
  raised_by :
      (b : Bool) (u : UnitOfWork) (e : Exn)
      → drive {V = V} (if b then raised unit_of_work_error else raised e, u)
        ≡ (if b then raised unit_of_work_error else raised e, u)
  unfolding drive
  raised_by true u e = refl
  raised_by false u e = refl

  drive-in_transaction :
      (r : Outcome (Option (Answer V UnitOfWork)) × UnitOfWork)
      → NoFuture r.0
      → drive (in_transaction r) ≡ exit_caught (drive r)
  unfolding drive in_transaction exit_caught exit
  drive-in_transaction (returned none, u) h = refl
  drive-in_transaction (returned (some (plain v)), u) h = refl
  drive-in_transaction (returned (some (awaitable coroutine c)), u) h = refl
  drive-in_transaction (returned (some (awaitable other_kind c)), u) h = elim h [ ]
  drive-in_transaction (raised e, u) h = raised_by u.reraise (rollback u) e
  drive-in_transaction (interrupted, u) h = refl

  -- A message handled under the middleware ends, and leaves the unit, as in a `with` statement on the unit,
  -- with two exceptions. When the handler is interrupted, the unit is neither committed nor rolled back.
  -- When its answer is an awaitable that is no coroutine, the unit is committed before that is awaited, and
  -- the middleware does no more with it, however the awaitable ends.
  pub unit_of_work-scope :
      (next_call : Handler M (Answer V UnitOfWork) UnitOfWork) (u : UnitOfWork)
      → (NoFuture (next_call instance_ u).0
          → (drive (next_call instance_ u)).0 ≢ interrupted
          → drive (unit_of_work instance_ next_call u)
            ≡ scope (λ u'. drive (next_call instance_ u')) u)
        × (NoFuture (next_call instance_ u).0
            → (drive (next_call instance_ u)).0 ≡ interrupted
            → drive (unit_of_work instance_ next_call u) ≡ drive (next_call instance_ u))
        × ((c : Action UnitOfWork (Option V)) (u' : UnitOfWork)
            → next_call instance_ u ≡ (returned (some (awaitable other_kind c)), u')
            → drive (unit_of_work instance_ next_call u) ≡ c (commit u'))
  unfolding unit_of_work scope in_transaction exit_caught exit drive
  unit_of_work-scope next_call u =
      let r = next_call instance_ u in
      (
        (λ f ends. drive-in_transaction r f ∙ (exit_caught-exit (drive r)).0 ends),
        (λ f ends. drive-in_transaction r f ∙ (exit_caught-exit (drive r)).1 ends),
        (λ c u' e. rw e refl),
      )
