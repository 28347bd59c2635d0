-- ===== src/Cqrs/Middleware/Tests.antt =====
-- Runs of the middleware, and the theorems at concrete handlers.
use hexastack.Base.{ℕ, String, true, false, Option, none, some, ◌≡◌, refl, ◌≢◌}
use hexastack.Base.Int.{pos}
use hexastack.Base.Outcome.{returned, raised, interrupted, other, feature_flag_disabled}
use hexastack.Core.Registry.{Action, Handler}
use hexastack.Core.CircuitBreaker.{init, call}
use hexastack.Core.UnitOfWork
use hexastack.Core.UnitOfWork.{UnitOfWork, commit, scope}
use hexastack.Cqrs.Middleware.{
  Answer, coroutine, other_kind, awaitable, drive, circuit_breaker, unit_of_work, feature_flag,
  fall_back,
}
use hexastack.Cqrs.Middleware.Breaking.{circuit_breaker-call}
use hexastack.Cqrs.Middleware.Transactions.{NoFuture, unit_of_work-scope}

abbrev name_of : ℕ → String
name_of m = "pay"

-- An awaitable that raises when it is awaited.
abbrev later_fails : {W : Type 0} → Handler ℕ (Answer ℕ W) W
later_fails m w = (returned (some (awaitable coroutine (λ w'. (raised (other 3), w')))), w)

-- An awaitable that is cancelled.
abbrev cancelled : Handler ℕ (Answer ℕ UnitOfWork) UnitOfWork
cancelled m w = (returned (some (awaitable coroutine (λ w'. (interrupted, w')))), w)

flag_off :
    feature_flag {M = ℕ} {A = ℕ} {W = ℕ} false none false 2 (λ m w. (returned none, w)) 9
    ≡ (raised feature_flag_disabled, 9)
unfolding feature_flag fall_back
flag_off = refl

circuit_breaker-call_example :
    drive (
      circuit_breaker {V = ℕ} true true name_of 1000 1500 7 later_fails (init (pos 1) 5000 (pos 1)))
    ≡ call "pay" (λ b. drive (later_fails 7 b)) 1000 1500 (init (pos 1) 5000 (pos 1))
circuit_breaker-call_example =
    circuit_breaker-call name_of 1000 1500 7 later_fails (init (pos 1) 5000 (pos 1))

abbrev unit : UnitOfWork
unit = UnitOfWork.init true

unit_of_work-scope_example :
    (NoFuture (cancelled 7 unit).0
      → (drive (cancelled 7 unit)).0 ≢ interrupted
      → drive (unit_of_work 7 cancelled unit) ≡ scope (λ u. drive (cancelled 7 u)) unit)
    × (NoFuture (cancelled 7 unit).0
        → (drive (cancelled 7 unit)).0 ≡ interrupted
        → drive (unit_of_work 7 cancelled unit) ≡ drive (cancelled 7 unit))
    × ((c : Action UnitOfWork (Option ℕ)) (u' : UnitOfWork)
        → cancelled 7 unit ≡ (returned (some (awaitable other_kind c)), u')
        → drive (unit_of_work 7 cancelled unit) ≡ c (commit u'))
unit_of_work-scope_example = unit_of_work-scope 7 cancelled unit
