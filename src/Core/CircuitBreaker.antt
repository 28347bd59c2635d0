-- ===== src/Core/CircuitBreaker.antt =====
-- packages/hexastack_core/src/hexastack_core/adapters/circuit_breaker/in_memory.py and `CircuitState`
-- of ports/circuit_breaker.py. Times are whole milliseconds of the monotonic clock, read by the
-- caller and passed in; each method runs under the lock, so it is one step.
pub mod Invariant
pub mod Trips
pub mod Trials
pub mod Calls
mod Tests
use hexastack.Base.{
  ℕ, suc, ◌+◌, ◌-◌, String, Bool, true, false, Option, none, some, List, [], ◌∷◌, leb, ltb, max,
  if◌then◌else◌,
}
use hexastack.Base.Int.{ℤ, pos_part}
use hexastack.Base.Outcome.{Outcome, returned, raised, interrupted, circuit_breaker_open_error}
use hexastack.Dict.{Dict, lookup, contains, insert, string_key}

pub data CircuitState : Type 0 where
  closed half_open open_ : CircuitState

-- `_CircuitStats`
pub record CircuitStats : Type 0 where
  pub state : CircuitState
  pub failure_count : ℕ
  pub success_count : ℕ
  pub last_failure_time : ℕ
  pub half_open_active_calls : ℕ

abbrev pub fresh : CircuitStats
fresh = record {
  state = closed;
  failure_count = 0;
  success_count = 0;
  last_failure_time = 0;
  half_open_active_calls = 0;
}

-- What the constructor of `InMemoryCircuitBreaker` fixes.
pub record Config : Type 0 where
  pub failure_threshold : ℕ
  pub recovery_timeout : ℕ
  pub half_open_max_trials : ℕ

-- `InMemoryCircuitBreaker`
pub record Breaker : Type 0 where
  pub config : Config
  pub open config use *
  pub breakers : Dict String CircuitStats

pub init : ℤ → ℕ → ℤ → Breaker
init failure_threshold recovery_timeout half_open_max_trials = record {
  config = record {
    failure_threshold = max 1 (pos_part failure_threshold);
    recovery_timeout = max 1 recovery_timeout;
    half_open_max_trials = max 1 (pos_part half_open_max_trials);
  };
  breakers = [];
}

abbrev or_fresh : Option CircuitStats → CircuitStats
or_fresh none = fresh
or_fresh (some s) = s

-- The statistics object of a name; the callers write it back, changed or new, by `put_stats`.
abbrev pub get_stats : Breaker → String → CircuitStats
get_stats b name = or_fresh (lookup name b.breakers)

abbrev pub put_stats : Breaker → String → CircuitStats → Breaker
put_stats b name s = record b { breakers = insert name s b.breakers }

-- `_evaluate_state` on a state that is OPEN, and on any.
evaluate_in : CircuitState → ℕ → ℕ → CircuitStats → CircuitStats
evaluate_in open_ timeout now s =
    if leb timeout (now - s.last_failure_time)
    then record s { state = half_open; success_count = 0; half_open_active_calls = 0 }
    else s
evaluate_in closed timeout now s = s
evaluate_in half_open timeout now s = s

pub evaluate_state : ℕ → ℕ → CircuitStats → CircuitStats
unfolding evaluate_in
evaluate_state timeout now s = evaluate_in s.state timeout now s

pub state : String → ℕ → Breaker → CircuitState × Breaker
unfolding evaluate_state
state name now b =
    let s = evaluate_state b.recovery_timeout now (get_stats b name) in
    (s.state, put_stats b name s)

-- The body of `allow_execution` after the state has been evaluated.
admit_in : CircuitState → ℕ → CircuitStats → Bool × CircuitStats
admit_in closed trials s = (true, s)
admit_in half_open trials s =
    if ltb s.half_open_active_calls trials
    then (true, record s { half_open_active_calls = s.half_open_active_calls + 1 })
    else (false, s)
admit_in open_ trials s = (false, s)

pub admit : Config → ℕ → CircuitStats → Bool × CircuitStats
unfolding admit_in evaluate_state
admit c now s =
    let s' = evaluate_state c.recovery_timeout now s in admit_in s'.state c.half_open_max_trials s'

pub allow_execution : String → ℕ → Breaker → Bool × Breaker
unfolding admit
allow_execution name now b =
    let (granted, s) = admit b.config now (get_stats b name) in (granted, put_stats b name s)

succeed_in : CircuitState → CircuitStats → CircuitStats
succeed_in half_open s = record s {
  state = closed;
  failure_count = 0;
  success_count = 0;
  half_open_active_calls = 0;
}
succeed_in closed s = record s { failure_count = 0 }
succeed_in open_ s = s

pub succeed : Config → ℕ → CircuitStats → CircuitStats
unfolding succeed_in evaluate_state
succeed c now s = let s' = evaluate_state c.recovery_timeout now s in succeed_in s'.state s'

pub record_success : String → ℕ → Breaker → Breaker
unfolding succeed
record_success name now b = put_stats b name (succeed b.config now (get_stats b name))

-- `record_failure` does not evaluate the timeout first.
fail_in : CircuitState → ℕ → CircuitStats → CircuitStats
fail_in half_open threshold s = record s { state = open_; half_open_active_calls = 0 }
fail_in closed threshold s = if leb threshold s.failure_count then record s { state = open_ } else s
fail_in open_ threshold s = s

pub fail : Config → ℕ → CircuitStats → CircuitStats
unfolding fail_in
fail c now s =
    fail_in s.state c.failure_threshold
      (record s { last_failure_time = now; failure_count = s.failure_count + 1 })

pub record_failure : String → ℕ → Breaker → Breaker
unfolding fail
record_failure name now b = put_stats b name (fail b.config now (get_stats b name))

pub reset : String → Breaker → Breaker
reset name b = if contains name b.breakers then put_stats b name fresh else b

-- The callee runs without the lock: other calls, its own included, may change the breaker while it
-- runs, so it takes the breaker and returns it. `now` and `later` are the clock before and after.
unfoldable pub conclude : {A : Type 0} → String → ℕ → Outcome A × Breaker → Outcome A × Breaker
unfolding record_success record_failure
conclude name later (returned a, b) = (returned a, record_success name later b)
conclude name later (raised e, b) = (raised e, record_failure name later b)
conclude name later (interrupted, b) = (interrupted, b)

unfoldable pub call :
    {A : Type 0} → String → (Breaker → Outcome A × Breaker) → ℕ → ℕ → Breaker → Outcome A × Breaker
unfolding conclude allow_execution
call name func now later b =
    let (granted, b') = allow_execution name now b in
    if granted then conclude name later (func b') else (raised circuit_breaker_open_error, b')

-- The methods as data, to speak of any history of calls.
pub data Call : Type 0 where
  evaluates allows succeeds fails resets : Call

pub step : Breaker → String × ℕ × Call → Breaker
unfolding state allow_execution record_success record_failure reset
step b (name, now, evaluates) = (state name now b).1
step b (name, now, allows) = (allow_execution name now b).1
step b (name, now, succeeds) = record_success name now b
step b (name, now, fails) = record_failure name now b
step b (name, now, resets) = reset name b

pub run : Breaker → List (String × ℕ × Call) → Breaker
unfolding step
run b [] = b
run b (c ∷ cs) = run (step b c) cs
