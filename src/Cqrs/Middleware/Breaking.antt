-- ===== src/Cqrs/Middleware/Breaking.antt =====
-- The circuit breaker as middleware is the circuit breaker's own `call`.
use hexastack.Base.{ℕ, String, true, Option, none, some, ◌≡◌, refl, Bool-cases, inl, inr}
use hexastack.Base.Outcome.{Outcome, returned, raised, interrupted}
use hexastack.Core.Registry.{Handler}
use hexastack.Core.CircuitBreaker.{Breaker, allow_execution, call, conclude}
use hexastack.Cqrs.Middleware.{
  Answer, plain, awaitable, drive, as_answer, in_out, began, called, awaited, checked_after,
  reraise_after, circuit_breaker, breaker_hooks, breaker_before, breaker_after, breaker_on_error,
}

module _ {M V : Type 0} (name_of : M → String) (now later : ℕ) (instance_ : M) where
  awaited-conclude :
      (name : String) (r : Outcome (Option V) × Breaker)
      → awaited (breaker_hooks true true name_of now later) instance_ (some name) r
        ≡ conclude name later r
  unfolding awaited checked_after reraise_after breaker_after breaker_on_error conclude
  awaited-conclude name (returned v, b) = refl
  awaited-conclude name (raised e, b) = refl
  awaited-conclude name (interrupted, b) = refl

  called-conclude :
      (name : String) (r : Outcome (Option (Answer V Breaker)) × Breaker)
      → drive (called (breaker_hooks true true name_of now later) instance_ (some name) r)
        ≡ conclude name later (drive r)
  unfolding called reraise_after breaker_after breaker_on_error conclude drive as_answer
  called-conclude name (returned none, b) = refl
  called-conclude name (returned (some (plain v)), b) = refl
  called-conclude name (returned (some (awaitable k c)), b) = awaited-conclude name (c b)
  called-conclude name (raised e, b) = refl
  called-conclude name (interrupted, b) = refl

  -- A message handled under the middleware ends, and leaves the breaker, as `call` of the breaker does on
  -- the rest of the chain, whether that answers at once or is awaited.
  pub circuit_breaker-call :
      (next_call : Handler M (Answer V Breaker) Breaker) (b : Breaker)
      → drive (circuit_breaker true true name_of now later instance_ next_call b)
        ≡ call (name_of instance_) (λ b'. drive (next_call instance_ b')) now later b
  unfolding circuit_breaker in_out began breaker_before call drive
  circuit_breaker-call next_call b =
      elim (Bool-cases (allow_execution (name_of instance_) now b).0) [
        | inl yes_ ↦ rw yes_ (
            called-conclude (name_of instance_)
              (next_call instance_ (allow_execution (name_of instance_) now b).1))
        | inr no_ ↦ rw no_ refl
      ]
