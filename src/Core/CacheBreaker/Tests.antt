-- ===== src/Core/CacheBreaker/Tests.antt =====
-- The theorems at a concrete breaker.
use hexastack.Base.{[], ◌∷◌, none}
use hexastack.Core.Cache.{Store}
use hexastack.Core.CircuitBreaker.{open_}
use hexastack.Core.CacheBreaker.{Data, fresh, CacheCircuitBreaker}

-- Threshold 2, ten seconds, one trial.
abbrev breaker : CacheCircuitBreaker
breaker = record {
  failure_threshold = 2;
  recovery_timeout = 10000;
  half_open_max_trials = 1;
  key = λ name. name;
}

abbrev opened : Store Data
opened =
    ("db", (record fresh { state = open_; failure_count = 2; last_failure_time = 5000 }, none)) ∷ []
