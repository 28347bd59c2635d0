-- ===== src/Core/CircuitBreaker/Trials.antt =====
-- The quota of trial calls of a half-open breaker.
use hexastack.Base.{
  ℕ, suc, ◌+◌, ◌-◌, ◌≡◌, String, List, [], ◌∷◌, arith, ltb, min, length, if◌then◌else◌,
}
use hexastack.Core.CircuitBreaker.{half_open, Breaker, get_stats, admit, allow_execution}
use hexastack.Core.CircuitBreaker.Invariant.{get_stats-put_stats_self}

-- How many of the calls of `allow_execution` at these times are granted, and the breaker after them.
pub grants : String → List ℕ → Breaker → ℕ × Breaker
grants name [] b = (0, b)
grants name (t ∷ ts) b =
    let (granted, b') = allow_execution name t b in
    let (n, b'') = grants name ts b' in (if granted then suc n else n, b'')

half_open-admit :
    (b : Breaker) (name : String) (t : ℕ)
    → (get_stats b name).state ≡ half_open
    → let r = allow_execution name t b in
      let active = (get_stats b name).half_open_active_calls in
      (r.0 ≡ ltb active b.half_open_max_trials)
      × ((get_stats r.1 name).state ≡ half_open)
      × ((get_stats r.1 name).half_open_active_calls
          ≡ (if ltb active b.half_open_max_trials then active + 1 else active))
      × (r.1.config ≡ b.config)
unfolding allow_execution
half_open-admit b name t e =
    ground (arith, get_stats-put_stats_self b name (admit b.config t (get_stats b name)).1)

-- Until a trial call reports its outcome, a half-open breaker grants what is left of the quota and
-- nothing beyond, at whatever times it is asked, and it stays half-open.
pub grants_quota :
    (b : Breaker) (name : String) (ts : List ℕ)
    → (get_stats b name).state ≡ half_open
    → ((grants name ts b).0
        ≡ min (length ts) (b.half_open_max_trials - (get_stats b name).half_open_active_calls))
      × ((get_stats (grants name ts b).1 name).state ≡ half_open)
unfolding grants
grants_quota b name [] e = (omega arith, e)
grants_quota b name (t ∷ ts) e =
    ground (arith, half_open-admit b name t e, grants_quota (allow_execution name t b).1 name ts)
