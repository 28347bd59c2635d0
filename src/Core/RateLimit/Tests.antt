-- ===== src/Core/RateLimit/Tests.antt =====
-- Runs of the limiter, and the theorems at concrete limits.
use hexastack.Base.{◌≡◌, refl, ◌≤◌, [], ◌∷◌, length, arith}
use hexastack.Base.Int.{pos, negsuc}
use hexastack.Base.Outcome.{returned, raised, value_error}
use hexastack.Base.Text.{codes, strip, split, removesuffix, int, digits}
use hexastack.Core.RateLimit.{RateLimitSpec, parse_rate_limit, RateLimiter}
use hexastack.Core.RateLimit.Window.{admitted, within, admitted_bound}

abbrev two_per_second : RateLimitSpec
two_per_second = record { count = pos 2; window_seconds = 1 }

abbrev none_per_hour : RateLimitSpec
none_per_hour = record { count = pos 0; window_seconds = 3600 }

abbrev two_per_minute : RateLimitSpec
two_per_minute = record { count = pos 2; window_seconds = 60 }

abbrev empty : RateLimiter
empty = record { hits = [] }

abbrev used : RateLimiter
used = record { hits = ("ip", 1000 ∷ 2500 ∷ []) ∷ [] }

parse_plain :
    parse_rate_limit (codes " 10 / Minutes ")
    ≡ returned (record { count = pos 10; window_seconds = 60 })
unfolding parse_rate_limit strip split removesuffix int digits
parse_plain = refl

parse_negative :
    parse_rate_limit (codes "-1_0/s") ≡ returned (record { count = negsuc 9; window_seconds = 1 })
unfolding parse_rate_limit strip split removesuffix int digits
parse_negative = refl

parse_refused : parse_rate_limit (codes "10/week") ≡ raised value_error
unfolding parse_rate_limit strip split removesuffix int digits
parse_refused = refl

two_per_second_parses : parse_rate_limit (codes "2/second") ≡ returned two_per_second
unfolding parse_rate_limit strip split removesuffix int digits
two_per_second_parses = refl

admitted_bound_example :
    length (
      within 1400 two_per_second
        (admitted "ip" (codes "2/second") (100 ∷ 500 ∷ 900 ∷ 1200 ∷ 1400 ∷ []) empty))
    ≤ 2
admitted_bound_example =
    admitted_bound 1400 "ip" (codes "2/second") two_per_second (100 ∷ 500 ∷ 900 ∷ 1200 ∷ 1400 ∷ [])
      empty two_per_second_parses refl (omega arith)
