-- ===== src/Core/CircuitBreaker/Tests.antt =====
-- Runs of the breaker, and the theorems at concrete breakers.
use hexastack.Base.{ℕ, ◌≡◌, refl, List, [], ◌∷◌, arith, String_discrete}
use hexastack.Base.Int.{pos, negsuc}
use hexastack.Base.Outcome.{Outcome, returned, raised, interrupted, other}
use hexastack.Core.CircuitBreaker.{
  half_open, open_, fresh, Breaker, init, get_stats, allow_execution, call, step, run,
}
use hexastack.Core.CircuitBreaker.Invariant.{IsValid, run-init-IsValid}
use hexastack.Core.CircuitBreaker.Trips.{failures, failures_trip}
use hexastack.Core.CircuitBreaker.Trials.{grants}
use hexastack.Core.CircuitBreaker.Calls.{
  Attempt, call_all, refusals, call_trial_reopens, call_cancelled_blocks,
}

-- Threshold 2, ten seconds, one trial; "db" opened at 5000, "api" is half-open.
abbrev tripped : Breaker
tripped = record {
  config = record { failure_threshold = 2; recovery_timeout = 10000; half_open_max_trials = 1 };
  breakers =
      ("db", record fresh { state = open_; failure_count = 2; last_failure_time = 5000 })
      ∷ ("api", record fresh { state = half_open; failure_count = 2; last_failure_time = 1000 })
      ∷ ("web", fresh)
      ∷ [];
}

abbrev times : List ℕ
times = 1000 ∷ 2000 ∷ []

abbrev fine : Breaker → Outcome ℕ × Breaker
fine b = (returned 7, b)

abbrev fault : Breaker → Outcome ℕ × Breaker
fault b = (raised (other 1), b)

abbrev cancelled : Breaker → Outcome ℕ × Breaker
cancelled b = (interrupted, b)

opens_after_two :
    get_stats (run (init (pos 2) 10000 (negsuc 4)) (failures "db" times)) "db"
    ≡ record fresh { state = open_; failure_count = 2; last_failure_time = 2000 }
unfolding run step init String_discrete
opens_after_two = refl

call_runs : (call "db" fine 15000 15001 tripped).0 ≡ returned 7
unfolding call allow_execution String_discrete
call_runs = refl

tripped-IsValid : IsValid tripped
tripped-IsValid = record {
  positive = omega arith;
  stats = (omega arith, (omega arith, (omega arith, tt)));
}

run-init-IsValid_example : IsValid (run (init (pos 2) 10000 (pos 1)) (failures "db" times))
run-init-IsValid_example = run-init-IsValid (pos 2) 10000 (pos 1) (failures "db" times)

failures_trip_example : (get_stats (run tripped (failures "web" times)) "web").state ≡ open_
unfolding String_discrete
failures_trip_example = failures_trip tripped "web" times tripped-IsValid refl refl

abbrev attempts : List (Attempt ℕ)
attempts =
    record { func = fine; now = 15002; later = 15003 }
    ∷ record { func = fault; now = 25001; later = 25003 }
    ∷ []

call_trial_reopens_example :
    ((call "db" fault 15000 15002 tripped).0 ≡ raised (other 1))
    × (call_all "db" attempts (call "db" fault 15000 15002 tripped).1 ≡ refusals attempts)
unfolding String_discrete
call_trial_reopens_example =
    call_trial_reopens tripped "db" fault 15000 15002 (other 1) attempts (omega arith) refl
      (omega arith) (λ b. refl) (omega arith, (omega arith, tt))

call_cancelled_blocks_example :
    ((call "db" cancelled 15000 15002 tripped).0 ≡ interrupted)
    × ((grants "db" (90000 ∷ 900000 ∷ []) (call "db" cancelled 15000 15002 tripped).1).0 ≡ 0)
unfolding String_discrete
call_cancelled_blocks_example =
    call_cancelled_blocks tripped "db" cancelled 15000 15002 (90000 ∷ 900000 ∷ []) refl refl
      (omega arith) (λ b. refl)
