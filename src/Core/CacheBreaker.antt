-- ===== src/Core/CacheBreaker.antt =====
-- packages/hexastack_core/src/hexastack_core/adapters/circuit_breaker/cache.py: `CacheCircuitBreaker` on
-- the cache in memory, whose only values are the breaker's data. Times are whole milliseconds; the clocks
-- of the breaker and of the cache are one, and do not move during a method.
pub mod Counting
mod Tests
use hexastack.Base.{
  ℕ, ◌+◌, ◌-◌, ◌*◌, String, Bool, true, false, List, [], ◌∷◌, leb, ltb, max, ◌||◌, if◌then◌else◌,
  Option, some,
}
use hexastack.Base.Int.{ℤ, pos_part}
use hexastack.Base.Outcome.{Outcome, returned, raised, interrupted, circuit_breaker_open_error}
use hexastack.Core.Cache
use hexastack.Core.Cache.{Store}
use hexastack.Core.CircuitBreaker.{CircuitState, closed, half_open, open_}

-- The dict that is kept under a key of the cache.
pub record Data : Type 0 where
  pub state : CircuitState
  pub failure_count : ℕ
  pub last_failure_time : ℕ
  pub half_open_trials : ℕ

abbrev pub fresh : Data
fresh = record { state = closed; failure_count = 0; last_failure_time = 0; half_open_trials = 0 }

pub record CacheCircuitBreaker : Type 0 where
  pub failure_threshold : ℕ
  pub recovery_timeout : ℕ
  pub half_open_max_trials : ℕ
  -- `_key`: the prefix before a name.
  pub key : String → String

pub init : ℤ → ℕ → (String → String) → ℤ → CacheCircuitBreaker
init failure_threshold recovery_timeout key half_open_max_trials = record {
  failure_threshold = max 1 (pos_part failure_threshold);
  recovery_timeout = max 1 recovery_timeout;
  half_open_max_trials = max 1 (pos_part half_open_max_trials);
  key = key;
}

module _ (c : CacheCircuitBreaker) where
  -- Where the cache holds nothing, the data of a new breaker.
  get_data : String → ℕ → Store Data → Data × Store Data
  get_data name now s = Cache.get (c.key name) fresh now s

  save_data : String → Data → ℕ → Store Data → Store Data
  save_data name data_ now s = Cache.set (c.key name) data_ (some (c.recovery_timeout * 3)) now s

  -- The start of `state` and of `allow_execution`: an open breaker whose timeout has passed is saved as
  -- half-open.
  evaluate_in : CircuitState → String → ℕ → Data × Store Data → Data × Store Data
  unfolding save_data
  evaluate_in open_ name now (data_, s) =
      if leb c.recovery_timeout (now - data_.last_failure_time)
      then (let data' = record data_ { state = half_open; half_open_trials = 0 } in
          (data', save_data name data' now s))
      else (data_, s)
  evaluate_in closed name now (data_, s) = (data_, s)
  evaluate_in half_open name now (data_, s) = (data_, s)

  evaluate : String → ℕ → Data × Store Data → Data × Store Data
  unfolding evaluate_in
  evaluate name now (data_, s) = evaluate_in data_.state name now (data_, s)

  pub state : String → ℕ → Store Data → CircuitState × Store Data
  unfolding get_data evaluate
  state name now s = let (data_, s') = evaluate name now (get_data name now s) in (data_.state, s')

  admit_in : CircuitState → String → ℕ → Data × Store Data → Bool × Store Data
  unfolding save_data
  admit_in closed name now (data_, s) = (true, s)
  admit_in half_open name now (data_, s) =
      if ltb data_.half_open_trials c.half_open_max_trials
      then (
        true,
        save_data name (record data_ { half_open_trials = data_.half_open_trials + 1 }) now s,
      )
      else (false, s)
  admit_in open_ name now (data_, s) = (false, s)

  pub allow_execution : String → ℕ → Store Data → Bool × Store Data
  unfolding get_data evaluate admit_in
  allow_execution name now s =
      let (data_, s') = evaluate name now (get_data name now s) in
      admit_in data_.state name now (data_, s')

  pub record_success : String → ℕ → Store Data → Store Data
  unfolding get_data save_data
  record_success name now s =
      let (data_, s') = get_data name now s in
      save_data name (record data_ { state = closed; failure_count = 0; half_open_trials = 0 }) now
        s'

  abbrev is_half_open : CircuitState → Bool
  is_half_open half_open = true
  is_half_open closed = false
  is_half_open open_ = false

  -- The data after a failure.
  pub failed : ℕ → Data → Data
  failed now data_ = record data_ {
    failure_count = data_.failure_count + 1;
    last_failure_time = now;
    half_open_trials = 0;
    state =
        if is_half_open data_.state || leb c.failure_threshold (data_.failure_count + 1)
        then open_
        else data_.state;
  }

  pub record_failure : String → ℕ → Store Data → Store Data
  unfolding get_data save_data failed
  record_failure name now s =
      let (data_, s') = get_data name now s in save_data name (failed now data_) now s'

  pub reset : String → Store Data → Store Data
  reset name s = (Cache.delete (c.key name) s).1

  conclude : {A : Type 0} → String → ℕ → Outcome A × Store Data → Outcome A × Store Data
  unfolding record_success record_failure
  conclude name later (returned a, s) = (returned a, record_success name later s)
  conclude name later (raised e, s) = (raised e, record_failure name later s)
  conclude name later (interrupted, s) = (interrupted, s)

  -- The callee runs between the two accesses, and may use the cache.
  pub call :
      {A : Type 0}
      → String
      → (Store Data → Outcome A × Store Data)
      → ℕ
      → ℕ
      → Store Data
      → Outcome A × Store Data
  unfolding conclude allow_execution
  call name func now later s =
      let (granted, s') = allow_execution name now s in
      if granted then conclude name later (func s') else (raised circuit_breaker_open_error, s')
