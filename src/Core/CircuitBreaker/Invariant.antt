-- ===== src/Core/CircuitBreaker/Invariant.antt =====
-- What holds of every named breaker after any history of calls.
use hexastack.Base.{
  ℕ, ◌≤◌, ◌<◌, ◌≡◌, refl, ap, ◌≢◌, String, inl, inr, List, [], ◌∷◌, arith, All, Bool-cases,
  Option-cases,
}
use hexastack.Base.Int.{ℤ}
use hexastack.Dict.{
  string_key, lookup, contains, values, lookup-insert_self, lookup-insert_ne, All-insert,
  All-lookup,
}
use hexastack.Core.CircuitBreaker.{
  CircuitState, closed, half_open, open_, CircuitStats, fresh, Config, Breaker, init, or_fresh,
  get_stats, put_stats, evaluate_state, admit, succeed, fail, Call, evaluates, allows, succeeds,
  fails, resets, step, run,
}

-- A closed breaker is below its threshold, only a half-open one has trials under way, and these are
-- within the quota.
abbrev pub InState : Config → CircuitState → CircuitStats → Type 0
InState c closed s = (s.failure_count < c.failure_threshold) × (s.half_open_active_calls ≡ 0)
InState c half_open s = s.half_open_active_calls ≤ c.half_open_max_trials
InState c open_ s = s.half_open_active_calls ≡ 0

pub record IsValidStats (c : Config) (s : CircuitStats) : Type 0 where
  pub in_state : InState c s.state s
  pub unused : s.success_count ≡ 0

pub record IsValid (b : Breaker) : Type 0 where
  pub positive : 0 < b.failure_threshold
  pub stats : All (IsValidStats b.config) (values b.breakers)

module _ (c : Config) (now : ℕ) (s : CircuitStats) (v : IsValidStats c s) where
  pub evaluate_state-IsValidStats : IsValidStats c (evaluate_state c.recovery_timeout now s)
  unfolding evaluate_state
  evaluate_state-IsValidStats = ground arith

  pub admit-IsValidStats : IsValidStats c (admit c now s).1
  unfolding admit
  admit-IsValidStats = ground arith

  pub succeed-IsValidStats : 0 < c.failure_threshold → IsValidStats c (succeed c now s)
  unfolding succeed
  succeed-IsValidStats h = ground arith

  pub fail-IsValidStats : IsValidStats c (fail c now s)
  unfolding fail
  fail-IsValidStats = ground arith

fresh-IsValidStats : (c : Config) → 0 < c.failure_threshold → IsValidStats c fresh
fresh-IsValidStats c h = omega arith

-- A name that was never used reads as a fresh, closed breaker.
pub get_stats-IsValidStats :
    (b : Breaker) (name : String) → IsValid b → IsValidStats b.config (get_stats b name)
get_stats-IsValidStats b name v = elim (Option-cases (lookup name b.breakers)) [
  | inl e ↦ rw e (fresh-IsValidStats b.config v.positive)
  | inr (s, e) ↦ rw e (All-lookup (IsValidStats b.config) name s b.breakers e v.stats)
]

put_stats-IsValid :
    (b : Breaker) (name : String) (s : CircuitStats)
    → IsValid b
    → IsValidStats b.config s
    → IsValid (put_stats b name s)
put_stats-IsValid b name s v p = record {
  positive = v.positive;
  stats = All-insert (IsValidStats b.config) name s b.breakers p v.stats;
}

-- Each method keeps, for every name: closed below the threshold, trials only in the half-open state
-- and within the quota.
pub step-IsValid : (b : Breaker) (c : String × ℕ × Call) → IsValid b → IsValid (step b c)
unfolding step
step-IsValid b (name, now, evaluates) v =
    put_stats-IsValid b name _ v
      (evaluate_state-IsValidStats b.config now _ (get_stats-IsValidStats b name v))
step-IsValid b (name, now, allows) v =
    put_stats-IsValid b name _ v
      (admit-IsValidStats b.config now _ (get_stats-IsValidStats b name v))
step-IsValid b (name, now, succeeds) v =
    put_stats-IsValid b name _ v
      (succeed-IsValidStats b.config now _ (get_stats-IsValidStats b name v) v.positive)
step-IsValid b (name, now, fails) v =
    put_stats-IsValid b name _ v
      (fail-IsValidStats b.config now _ (get_stats-IsValidStats b name v))
step-IsValid b (name, now, resets) v = elim (Bool-cases (contains name b.breakers)) [
  | inl e ↦ rw e (put_stats-IsValid b name fresh v (fresh-IsValidStats b.config v.positive))
  | inr e ↦ rw e v
]

run-IsValid : (b : Breaker) (cs : List (String × ℕ × Call)) → IsValid b → IsValid (run b cs)
unfolding run
run-IsValid b [] v = v
run-IsValid b (c ∷ cs) v = run-IsValid (step b c) cs (step-IsValid b c v)

-- From the constructor on, whatever the arguments and the history of calls, every named breaker is
-- valid: closed only below the threshold, trials only when half-open and within the quota.
pub run-init-IsValid :
    (threshold : ℤ) (timeout : ℕ) (trials : ℤ) (cs : List (String × ℕ × Call))
    → IsValid (run (init threshold timeout trials) cs)
unfolding init
run-init-IsValid threshold timeout trials cs =
    run-IsValid _ cs (record { positive = omega arith; stats = tt })

pub get_stats-put_stats_self :
    (b : Breaker) (name : String) (s : CircuitStats) → get_stats (put_stats b name s) name ≡ s
get_stats-put_stats_self b name s = ap or_fresh (lookup-insert_self name s b.breakers)

put_stats_others :
    (b : Breaker) (name other : String) (s : CircuitStats)
    → other ≢ name
    → get_stats (put_stats b name s) other ≡ get_stats b other
put_stats_others b name other s h = ap or_fresh (lookup-insert_ne other name s b.breakers h)

-- A call on one name leaves the statistics of every other name alone.
step_others :
    (b : Breaker) (name other : String) (now : ℕ) (c : Call)
    → other ≢ name
    → get_stats (step b (name, now, c)) other ≡ get_stats b other
unfolding step
step_others b name other now evaluates h = put_stats_others b name other _ h
step_others b name other now allows h = put_stats_others b name other _ h
step_others b name other now succeeds h = put_stats_others b name other _ h
step_others b name other now fails h = put_stats_others b name other _ h
step_others b name other now resets h = elim (Bool-cases (contains name b.breakers)) [
  | inl e ↦ rw e (put_stats_others b name other fresh h)
  | inr e ↦ rw e refl
]
