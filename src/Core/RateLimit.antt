-- ===== src/Core/RateLimit.antt =====
-- packages/hexastack_core/src/hexastack_core/adapters/ratelimit.py. Times are whole milliseconds of
-- the limiter's clock, passed in; each method runs under the lock, so it is one step.
pub mod Window
pub mod Reset
mod Tests
use hexastack.Base.{
  ℕ, suc, ◌+◌, ◌-◌, ◌*◌, ◌/◌, String, Bool, true, false, Option, none, some, List, [], ◌∷◌, ◌++◌,
  leb, ltb, max, if◌then◌else◌, length, keep, ◌||◌, not,
}
use hexastack.Base.Int.{ℤ, pos, ltb_ℤ}
use hexastack.Base.Outcome.{Outcome, returned, raised, value_error, ◌>>=◌}
use hexastack.Base.Text.{Text, codes, same, strip, split, lower, removesuffix, int}
use hexastack.Dict.{Dict, lookup, insert, erase, string_key}

-- `_RateLimitSpec`
pub record RateLimitSpec : Type 0 where
  pub count : ℤ
  pub window_seconds : ℕ

abbrev multipliers : List (Text × ℕ)
multipliers =
    (codes "second", 1)
    ∷ (codes "sec", 1)
    ∷ (codes "s", 1)
    ∷ (codes "minute", 60)
    ∷ (codes "min", 60)
    ∷ (codes "m", 60)
    ∷ (codes "hour", 3600)
    ∷ (codes "hr", 3600)
    ∷ (codes "h", 3600)
    ∷ (codes "day", 86400)
    ∷ (codes "d", 86400)
    ∷ []

seconds_of : List (Text × ℕ) → Text → Option ℕ
seconds_of [] u = none
seconds_of ((v, n) ∷ m) u = if same v u then some n else seconds_of m u

-- The unit itself if the table has it, otherwise the unit without a final "s".
unit_seconds : Text → Option ℕ
unfolding seconds_of
unit_seconds u = elim (seconds_of multipliers u) [
  | some n ↦ some n
  | none ↦ seconds_of multipliers (removesuffix b's' u)
]

abbrev or_value_error {ℓ} : {A : Type ℓ} → Option A → Outcome A
or_value_error none = raised value_error
or_value_error (some a) = returned a

spec_of : List Text → Outcome RateLimitSpec
unfolding unit_seconds
spec_of [] = raised value_error
spec_of (c ∷ []) = raised value_error
spec_of (c ∷ u ∷ []) = do
  n ← or_value_error (int (strip c))
  w ← or_value_error (unit_seconds (lower (strip u)))
  returned (record { count = n; window_seconds = w })
spec_of (c ∷ u ∷ x ∷ ps) = raised value_error

-- `_parse_rate_limit`
pub parse_rate_limit : Text → Outcome RateLimitSpec
unfolding spec_of
parse_rate_limit limit = spec_of (split b'/' (strip limit))

-- `InMemoryRateLimiter`: for each key the times of the hits that were let through.
pub record RateLimiter : Type 0 where
  pub hits : Dict String (List ℕ)

abbrev or_empty : Option (List ℕ) → List ℕ
or_empty none = []
or_empty (some ts) = ts

abbrev pub timestamps : RateLimiter → String → List ℕ
timestamps l key = or_empty (lookup key l.hits)

-- `t > now - window_seconds`, with nothing subtracted.
abbrev pub in_window : ℕ → RateLimitSpec → ℕ → Bool
in_window now spec t = ltb now (t + spec.window_seconds * 1000)

abbrev pub evict : ℕ → RateLimitSpec → List ℕ → List ℕ
evict now spec ts = keep (in_window now spec) ts

pub hit_spec : String → RateLimitSpec → ℕ → RateLimiter → Bool × RateLimiter
hit_spec key spec now l =
    let recent = evict now spec (timestamps l key) in
    if ltb_ℤ (pos (length recent)) spec.count
    then (true, record { hits = insert key (recent ++ now ∷ []) l.hits })
    else (false, record { hits = insert key recent l.hits })

-- A limit that does not parse raises before anything is changed.
hit_parsed : Outcome RateLimitSpec → String → ℕ → RateLimiter → Outcome Bool × RateLimiter
unfolding hit_spec
hit_parsed (returned spec) key now l = let (r, l') = hit_spec key spec now l in (returned r, l')
hit_parsed (raised e) key now l = (raised e, l)
hit_parsed Outcome.interrupted key now l = (Outcome.interrupted, l)

pub hit : String → Text → ℕ → RateLimiter → Outcome Bool × RateLimiter
unfolding hit_parsed
hit key limit now l = hit_parsed (parse_rate_limit limit) key now l

-- The body of `get_reset_window` over the hits in the window; `int` rounds the milliseconds down.
remaining : RateLimitSpec → ℕ → List ℕ → ℕ
remaining spec now [] = 0
remaining spec now (oldest ∷ ts) =
    if ltb_ℤ (pos (length (oldest ∷ ts))) spec.count
    then 0
    else max 1 ((oldest + spec.window_seconds * 1000 - now) / 1000)

pub reset_spec : String → RateLimitSpec → ℕ → RateLimiter → ℕ
unfolding remaining
reset_spec key spec now l = remaining spec now (evict now spec (timestamps l key))

pub get_reset_window : String → Text → ℕ → RateLimiter → Outcome ℕ
unfolding reset_spec
get_reset_window key limit now l = do
  spec ← parse_rate_limit limit
  returned (reset_spec key spec now l)

pub clear : Option String → RateLimiter → RateLimiter
clear none l = record { hits = [] }
clear (some key) l = record { hits = erase key l.hits }
