-- ===== src/Core/CircuitBreaker/Trips.antt =====
-- When a breaker opens, and how long it stays open.
use hexastack.Base.{
  ℕ, ◌+◌, ◌-◌, ◌<◌, ◌≡◌, refl, ap, ◌∙◌, String, List, [], ◌∷◌, arith, leb, length, if◌then◌else◌,
}
use hexastack.Core.CircuitBreaker.{
  closed, half_open, open_, CircuitStats, Config, Breaker, get_stats, admit, fail, allow_execution,
  Call, fails, step, run,
}
use hexastack.Core.CircuitBreaker.Invariant.{IsValid, get_stats-put_stats_self}

-- Consecutive failures of one name, at any times.
abbrev pub failures : String → List ℕ → List (String × ℕ × Call)
failures name [] = []
failures name (t ∷ ts) = (name, t, fails) ∷ failures name ts

fail_all : Config → List ℕ → CircuitStats → CircuitStats
fail_all c [] s = s
fail_all c (t ∷ ts) s = fail_all c ts (fail c t s)

fail_all_open :
    (c : Config) (ts : List ℕ) (s : CircuitStats)
    → s.state ≡ open_
    → (fail_all c ts s).state ≡ open_
unfolding fail_all fail
fail_all_open c [] s e = e
fail_all_open c (t ∷ ts) s e = fail_all_open c ts (fail c t s) (ground arith)

fail-state :
    (c : Config) (t : ℕ) (s : CircuitStats)
    → s.state ≡ closed
    → ((fail c t s).state
        ≡ (if leb c.failure_threshold (s.failure_count + 1) then open_ else closed))
      × ((fail c t s).failure_count ≡ s.failure_count + 1)
unfolding fail
fail-state c t s e = ground arith

fail_all-state :
    (c : Config) (ts : List ℕ) (s : CircuitStats)
    → s.state ≡ closed
    → s.failure_count < c.failure_threshold
    → (fail_all c ts s).state
      ≡ (if leb c.failure_threshold (s.failure_count + length ts) then open_ else closed)
unfolding fail_all
fail_all-state c [] s e h = ground arith
fail_all-state c (t ∷ ts) s e h =
    ground
      (arith, fail-state c t s e, fail_all_open c ts (fail c t s), fail_all-state c ts (fail c t s))

run-failures :
    (b : Breaker) (name : String) (ts : List ℕ)
    → get_stats (run b (failures name ts)) name ≡ fail_all b.config ts (get_stats b name)
unfolding run step fail_all
run-failures b name [] = refl
run-failures b name (t ∷ ts) =
    run-failures (step b (name, t, fails)) name ts
    ∙ ap (fail_all b.config ts)
        (get_stats-put_stats_self b name (fail b.config t (get_stats b name)))

-- From a closed breaker without failures, as many consecutive failures as the threshold open it, and
-- fewer leave it closed, at whatever times they come.
pub failures_trip :
    (b : Breaker) (name : String) (ts : List ℕ)
    → IsValid b
    → (get_stats b name).state ≡ closed
    → (get_stats b name).failure_count ≡ 0
    → (get_stats (run b (failures name ts)) name).state
      ≡ (if leb b.failure_threshold (length ts) then open_ else closed)
failures_trip b name ts v e z =
    ground
      (arith, run-failures b name ts, fail_all-state b.config ts (get_stats b name), v.positive)

-- An open breaker refuses, and stays as it is, until the recovery timeout has passed since the last
-- failure; then it is half-open, and this call is its first trial.
open_window :
    (b : Breaker) (name : String) (now : ℕ)
    → 0 < b.half_open_max_trials
    → (get_stats b name).state ≡ open_
    → ((allow_execution name now b).0
        ≡ leb b.recovery_timeout (now - (get_stats b name).last_failure_time))
      × (get_stats (allow_execution name now b).1 name ≡ (
          if leb b.recovery_timeout (now - (get_stats b name).last_failure_time)
          then record (get_stats b name) {
            state = half_open;
            success_count = 0;
            half_open_active_calls = 1;
          }
          else get_stats b name))
unfolding allow_execution
open_window b name now h e =
    ground (arith, get_stats-put_stats_self b name (admit b.config now (get_stats b name)).1)
