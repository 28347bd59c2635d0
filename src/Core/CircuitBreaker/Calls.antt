-- ===== src/Core/CircuitBreaker/Calls.antt =====
-- `call`: the outcome of the protected function, and what it does to the breaker.
use hexastack.Base.{ℕ, ◌-◌, ◌≤◌, ◌<◌, ◌≡◌, refl, ap, ◌∙◌, String, List, [], ◌∷◌, All, arith}
use hexastack.Base.Outcome.{Outcome, Exn, returned, raised, interrupted, circuit_breaker_open_error}
use hexastack.Core.CircuitBreaker.{
  open_, fresh, Breaker, get_stats, put_stats, admit, succeed, fail, allow_execution, call,
}
use hexastack.Core.CircuitBreaker.Invariant.{get_stats-put_stats_self}
use hexastack.Core.CircuitBreaker.Trials.{grants, grants_quota}

-- A function that returns the breaker as it found it.
abbrev pub Untouching : {A : Type 0} → (Breaker → Outcome A × Breaker) → Outcome A → Type 0
Untouching f o = (b : Breaker) → f b ≡ (o, b)

-- While a breaker is open and its recovery timeout has not passed, `call` raises without running the
-- function: the result is the same for every function, and no statistics change.
call_open_rejects :
    {A : Type 0} (b : Breaker) (name : String) (func : Breaker → Outcome A × Breaker)
    (now later : ℕ)
    → (get_stats b name).state ≡ open_
    → now - (get_stats b name).last_failure_time < b.recovery_timeout
    → call name func now later b
      ≡ (raised circuit_breaker_open_error, put_stats b name (get_stats b name))
unfolding call allow_execution
call_open_rejects b name func now later e h = ground arith

-- The first call after the recovery timeout is a trial. If the function, which leaves the breaker
-- alone, returns, then so does the call, and the breaker is closed with its counters cleared.
call_trial_closes :
    {A : Type 0} (b : Breaker) (name : String) (func : Breaker → Outcome A × Breaker)
    (now later : ℕ) (a : A)
    → 0 < b.half_open_max_trials
    → (get_stats b name).state ≡ open_
    → b.recovery_timeout ≤ now - (get_stats b name).last_failure_time
    → Untouching func (returned a)
    → ((call name func now later b).0 ≡ returned a)
      × (get_stats (call name func now later b).1 name
          ≡ record fresh { last_failure_time = (get_stats b name).last_failure_time })
unfolding call allow_execution
call_trial_closes b name func now later a q e h u =
    let s = (admit b.config now (get_stats b name)).1 in
    ground (
      arith,
      u (put_stats b name s),
      get_stats-put_stats_self b name s,
      get_stats-put_stats_self (put_stats b name s) name (succeed b.config later s),
    )

-- Calls of one name, each of some function at a time of its own: what they end with, in turn.
pub record Attempt (A : Type 0) : Type 0 where
  pub func : Breaker → Outcome A × Breaker
  pub now : ℕ
  pub later : ℕ

pub call_all : {A : Type 0} → String → List (Attempt A) → Breaker → List (Outcome A)
call_all name [] b = []
call_all name (x ∷ xs) b = let (o, b') = call name x.func x.now x.later b in o ∷ call_all name xs b'

abbrev pub refusals : {A : Type 0} → List (Attempt A) → List (Outcome A)
refusals [] = []
refusals (x ∷ xs) = raised circuit_breaker_open_error ∷ refusals xs

call_all_refused :
    {A : Type 0} (b : Breaker) (name : String) (xs : List (Attempt A)) (failed_at timeout : ℕ)
    → (get_stats b name).state ≡ open_
    → (get_stats b name).last_failure_time ≡ failed_at
    → b.recovery_timeout ≡ timeout
    → All (λ x. x.now - failed_at < timeout) xs
    → call_all name xs b ≡ refusals xs
unfolding call_all
call_all_refused b name [] failed_at timeout o e t h = refl
call_all_refused b name (x ∷ xs) failed_at timeout o e t h =
    let b' = put_stats b name (get_stats b name) in
    let same = get_stats-put_stats_self b name (get_stats b name) in
    let soon : x.now - (get_stats b name).last_failure_time < b.recovery_timeout = rw (e, t) h.0 in
    let rest =
      call_all_refused b' name xs failed_at timeout (ap (λ s. s.state) same ∙ o)
        (ap (λ s. s.last_failure_time) same ∙ e) t h.1 in
    rw (call_open_rejects b name x.func x.now x.later o soon)
      (ap (◌∷◌ (raised circuit_breaker_open_error)) rest)

call_trial_raises :
    {A : Type 0} (b : Breaker) (name : String) (func : Breaker → Outcome A × Breaker)
    (now later : ℕ) (err : Exn)
    → 0 < b.half_open_max_trials
    → (get_stats b name).state ≡ open_
    → b.recovery_timeout ≤ now - (get_stats b name).last_failure_time
    → Untouching func (raised err)
    → let (o, b') = call name func now later b in
      (o ≡ raised err)
      × ((get_stats b' name).state ≡ open_)
      × ((get_stats b' name).last_failure_time ≡ later)
      × (b'.recovery_timeout ≡ b.recovery_timeout)
unfolding call allow_execution
call_trial_raises b name func now later err q e h u =
    let s = (admit b.config now (get_stats b name)).1 in
    ground (
      arith,
      u (put_stats b name s),
      get_stats-put_stats_self b name s,
      get_stats-put_stats_self (put_stats b name s) name (fail b.config later s),
    )

-- A breaker that grants trials is open, and its recovery timeout has passed: if a call now runs a function
-- that raises an exception and leaves the breaker alone, the call raises the same, and the breaker is open
-- again as of the time at which the function ended. However many calls follow, each before the timeout
-- has passed since then, every one of them is refused.
pub call_trial_reopens :
    {A B : Type 0} (b : Breaker) (name : String) (func : Breaker → Outcome A × Breaker)
    (now later : ℕ) (err : Exn) (xs : List (Attempt B))
    → 0 < b.half_open_max_trials
    → (get_stats b name).state ≡ open_
    → b.recovery_timeout ≤ now - (get_stats b name).last_failure_time
    → Untouching func (raised err)
    → All (λ x. x.now - later < b.recovery_timeout) xs
    → ((call name func now later b).0 ≡ raised err)
      × (call_all name xs (call name func now later b).1 ≡ refusals xs)
call_trial_reopens b name func now later err xs q e h u soon =
    let (raises, opened, at, kept) = call_trial_raises b name func now later err q e h u in
    (raises, call_all_refused _ name xs later b.recovery_timeout opened at kept soon)

-- A cancelled trial is never reported: with a quota of one trial, a call that is ended by a
-- `BaseException` leaves the breaker half-open with its quota used up, and however often and however
-- late the breaker is asked from then on, it grants nothing.
pub call_cancelled_blocks :
    {A : Type 0} (b : Breaker) (name : String) (func : Breaker → Outcome A × Breaker)
    (now later : ℕ) (ts : List ℕ)
    → b.half_open_max_trials ≡ 1
    → (get_stats b name).state ≡ open_
    → b.recovery_timeout ≤ now - (get_stats b name).last_failure_time
    → Untouching func interrupted
    → ((call name func now later b).0 ≡ interrupted)
      × ((grants name ts (call name func now later b).1).0 ≡ 0)
unfolding call allow_execution
call_cancelled_blocks b name func now later ts q e h u =
    let s = (admit b.config now (get_stats b name)).1 in
    ground (
      arith,
      u (put_stats b name s),
      get_stats-put_stats_self b name s,
      grants_quota (put_stats b name s) name ts,
    )
