-- ===== src/Cqrs/Middleware.antt =====
-- packages/hexastack_cqrs/src/hexastack_cqrs/infra/middleware: generic.py, circuit_breaker.py,
-- unit_of_work.py and feature_flag.py. Logging is left out.
pub mod Breaking
pub mod Transactions
mod Tests
use hexastack.Base.{ℕ, String, Bool, true, false, Option, none, some, if◌then◌else◌, ◌&&◌}
use hexastack.Base.Outcome.{
  Exn, Outcome, returned, raised, interrupted, Done, circuit_breaker_open_error,
  feature_flag_disabled,
}
use hexastack.Core.Registry.{Action, Handler}
use hexastack.Core.CircuitBreaker.{Breaker, allow_execution, record_success, record_failure}
use hexastack.Core.UnitOfWork.{UnitOfWork, exit}
use hexastack.Cqrs.Buses.{Middleware}

-- `inspect.iscoroutine` tells coroutines from other awaitables, such as futures and tasks.
pub data AwaitableKind : Type 0 where
  coroutine other_kind : AwaitableKind

-- What a callable returns if it is not `None`: a value, or an awaitable, which acts when it is awaited.
pub data Answer (V W : Type 0) : Type 0 where
  plain : V → Answer V W
  awaitable : AwaitableKind → Action W (Option V) → Answer V W

module _ {V W : Type 0} where
  abbrev pub answer : Option V → Option (Answer V W)
  answer none = none
  answer (some v) = some (plain v)

  pub as_answer : Outcome (Option V) × W → Outcome (Option (Answer V W)) × W
  as_answer (returned v, w) = (returned (answer v), w)
  as_answer (raised e, w) = (raised e, w)
  as_answer (interrupted, w) = (interrupted, w)

  -- The caller awaits what it is given, if it is an awaitable.
  unfoldable pub drive : Outcome (Option (Answer V W)) × W → Outcome (Option V) × W
  drive (returned none, w) = (returned none, w)
  drive (returned (some (plain v)), w) = (returned (some v), w)
  drive (returned (some (awaitable k c)), w) = c w
  drive (raised e, w) = (raised e, w)
  drive (interrupted, w) = (interrupted, w)

-- The hooks of an `InOutMiddleware`, whose contexts are of type `C`.
pub record Hooks (M V W C : Type 0) : Type 0 where
  pub before : M → Action W C
  pub after : M → Option V → C → Action W (Option V)
  pub on_error : M → Exn → C → W → Done × W

module _ {M V W C : Type 0} (hooks : Hooks M V W C) (instance_ : M) where
  -- `self.on_error(...)` and `raise`: the hook's own exception takes the place of the one at hand.
  reraise_after : {A : Type 0} → Exn → Done × W → Outcome A × W
  reraise_after e (returned u, w) = (raised e, w)
  reraise_after e (raised x, w) = (raised x, w)
  reraise_after e (interrupted, w) = (interrupted, w)

  -- The body of `_async_wrap` after the result, with `after` in the `try`.
  checked_after : C → Outcome (Option V) × W → Outcome (Option V) × W
  unfolding reraise_after
  checked_after context (returned v, w) = (returned v, w)
  checked_after context (raised e, w) = reraise_after e (hooks.on_error instance_ e context w)
  checked_after context (interrupted, w) = (interrupted, w)

  awaited : C → Outcome (Option V) × W → Outcome (Option V) × W
  unfolding checked_after
  awaited context (returned v, w) = checked_after context (hooks.after instance_ v context w)
  awaited context (raised e, w) = checked_after context (raised e, w)
  awaited context (interrupted, w) = (interrupted, w)

  called : C → Outcome (Option (Answer V W)) × W → Outcome (Option (Answer V W)) × W
  unfolding awaited reraise_after as_answer
  called context (returned none, w) = as_answer (hooks.after instance_ none context w)
  called context (returned (some (plain v)), w) =
      as_answer (hooks.after instance_ (some v) context w)
  called context (returned (some (awaitable k c)), w) =
      (returned (some (awaitable coroutine (λ w'. awaited context (c w')))), w)
  called context (raised e, w) = reraise_after e (hooks.on_error instance_ e context w)
  called context (interrupted, w) = (interrupted, w)

  began : Outcome C × W → Handler M (Answer V W) W → Outcome (Option (Answer V W)) × W
  unfolding called
  began (returned context, w) next_call = called context (next_call instance_ w)
  began (raised e, w) next_call = (raised e, w)
  began (interrupted, w) next_call = (interrupted, w)

module _ {M V W C : Type 0} where
  -- `InOutMiddleware.__call__`
  pub in_out : Hooks M V W C → Middleware M (Answer V W) W
  unfolding began
  in_out hooks instance_ next_call w = began hooks instance_ (hooks.before instance_ w) next_call

-- `CircuitBreakerMiddleware` on the breaker that it is given; `name_of` is the name of a message's class,
-- `now` and `later` are the breaker's clock in `before` and afterwards.
module _ {M : Type 0} (enable has_breaker : Bool) (name_of : M → String) (now : ℕ) where
  breaker_before : M → Action Breaker (Option String)
  breaker_before instance_ b =
      if enable && has_breaker
      then (let (granted, b') = allow_execution (name_of instance_) now b in
          (
            if granted
                then returned (some (name_of instance_))
                else raised circuit_breaker_open_error,
            b',
          ))
      else (returned none, b)

module _ {M : Type 0} (has_breaker : Bool) (later : ℕ) where
  breaker_after : {V : Type 0} → M → Option V → Option String → Action Breaker (Option V)
  breaker_after instance_ result none b = (returned result, b)
  breaker_after instance_ result (some name) b =
      (returned result, if has_breaker then record_success name later b else b)

  breaker_on_error : M → Exn → Option String → Breaker → Done × Breaker
  breaker_on_error instance_ e none b = (returned tt, b)
  breaker_on_error instance_ e (some name) b =
      (returned tt, if has_breaker then record_failure name later b else b)

module _ {M V : Type 0} (enable has_breaker : Bool) (name_of : M → String) (now later : ℕ) where
  abbrev breaker_hooks : Hooks M V Breaker (Option String)
  breaker_hooks = record {
    before = breaker_before enable has_breaker name_of now;
    after = breaker_after has_breaker later;
    on_error = breaker_on_error has_breaker later;
  }

  pub circuit_breaker : Middleware M (Answer V Breaker) Breaker
  unfolding in_out breaker_before breaker_after breaker_on_error
  circuit_breaker instance_ next_call b = in_out breaker_hooks instance_ next_call b

-- The branches of `UnitOfWorkMiddleware.__call__`, which are under `except Exception`. The commit of the
-- unit in memory does not raise.
exit_caught : {A : Type 0} → Outcome A × UnitOfWork → Outcome A × UnitOfWork
unfolding exit
exit_caught (returned a, u) = exit (returned a, u)
exit_caught (raised e, u) = exit (raised e, u)
exit_caught (interrupted, u) = (interrupted, u)

module _ {V : Type 0} where
  in_transaction :
      Outcome (Option (Answer V UnitOfWork)) × UnitOfWork
      → Outcome (Option (Answer V UnitOfWork)) × UnitOfWork
  unfolding exit_caught
  in_transaction (returned none, u) = exit_caught (returned none, u)
  in_transaction (returned (some (plain v)), u) = exit_caught (returned (some (plain v)), u)
  in_transaction (returned (some (awaitable coroutine c)), u) =
      (returned (some (awaitable coroutine (λ u'. exit_caught (c u')))), u)
  in_transaction (returned (some (awaitable other_kind c)), u) =
      exit_caught (returned (some (awaitable other_kind c)), u)
  in_transaction (raised e, u) = exit_caught (raised e, u)
  in_transaction (interrupted, u) = exit_caught (interrupted, u)

module _ {M V : Type 0} where
  pub unit_of_work : Middleware M (Answer V UnitOfWork) UnitOfWork
  unfolding in_transaction
  unit_of_work instance_ next_call u = in_transaction (next_call instance_ u)

module _ {M A W : Type 0} where
  fall_back : Option (Handler M A W) → Bool → Middleware M A W
  fall_back (some fallback) bypass instance_ next_call w = fallback instance_ w
  fall_back none bypass instance_ next_call w =
      if bypass then next_call instance_ w else (raised feature_flag_disabled, w)

  -- `ConditionalFeatureFlagMiddleware`; `is_enabled` is the answer of the flag's port.
  pub feature_flag : Bool → Option (Handler M A W) → Bool → Middleware M A W
  unfolding fall_back
  feature_flag is_enabled fallback bypass instance_ next_call w =
      if is_enabled then next_call instance_ w else fall_back fallback bypass instance_ next_call w
