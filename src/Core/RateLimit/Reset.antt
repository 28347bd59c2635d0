-- ===== src/Core/RateLimit/Reset.antt =====
-- What `get_reset_window` tells a caller about the next `hit`.
use hexastack.Base.{
  ℕ, ◌+◌, ◌-◌, ◌*◌, ◌/◌, ◌≤◌, ◌<◌, ◌≡◌, refl, ◌≢◌, String, true, false, List, [], ◌∷◌, ◌==◌, length,
  All, arith, length-keep-le,
}
use hexastack.Base.Int.{pos, pos_part, ◌<ℤ◌}
use hexastack.Core.RateLimit.{
  RateLimitSpec, RateLimiter, timestamps, in_window, evict, hit_spec, remaining, reset_spec,
}

-- For a limit of at least one hit, the reset time is zero exactly when a hit now is let through.
reset-eq-zero_iff_hit :
    (key : String) (spec : RateLimitSpec) (now : ℕ) (l : RateLimiter)
    → pos 0 <ℤ spec.count
    → (reset_spec key spec now l == 0) ≡ (hit_spec key spec now l).0
unfolding reset_spec hit_spec
reset-eq-zero_iff_hit key spec now l h = ground arith

-- For a limit of zero hits (or fewer) nothing is ever let through, but while nothing is recorded for
-- the key the reset time is zero all the same.
reset_blocked :
    (key : String) (spec : RateLimitSpec) (now : ℕ) (l : RateLimiter)
    → ¬ (pos 0 <ℤ spec.count)
    → timestamps l key ≡ []
    → ((hit_spec key spec now l).0 ≡ false) × (reset_spec key spec now l ≡ 0)
unfolding reset_spec hit_spec
reset_blocked key spec now l h e = ground arith

evict_none :
    (now : ℕ) (spec : RateLimitSpec) (ts : List ℕ)
    → All (λ t. in_window now spec t ≡ true) ts
    → evict now spec ts ≡ ts
evict_none now spec [] h = refl
evict_none now spec (t ∷ ts) h = ground (arith, evict_none now spec ts h.1)

in_window-from :
    (now oldest : ℕ) (spec : RateLimitSpec) (ts : List ℕ)
    → now < oldest + spec.window_seconds * 1000
    → All (λ t. oldest ≤ t) ts
    → All (λ t. in_window now spec t ≡ true) ts
in_window-from now oldest spec [] h a = tt
in_window-from now oldest spec (t ∷ ts) h a =
    (ground arith, in_window-from now oldest spec ts h a.1)

-- `int` rounds the remaining time down. When the quota is used up by hits in order of time, all in
-- the window, and more than a second remains until the oldest leaves it, but not a whole number of
-- seconds, then a hit after exactly the reset time is still refused.
reset_too_short :
    (key : String) (spec : RateLimitSpec) (now oldest : ℕ) (ts : List ℕ) (l : RateLimiter)
    → timestamps l key ≡ oldest ∷ ts
    → All (λ t. oldest ≤ t) ts
    → ¬ (pos (length (oldest ∷ ts)) <ℤ spec.count)
    → now + 1000 < oldest + spec.window_seconds * 1000
    → now + (oldest + spec.window_seconds * 1000 - now) / 1000 * 1000
      ≢ oldest + spec.window_seconds * 1000
    → (hit_spec key spec (now + reset_spec key spec now l * 1000) l).0 ≡ false
unfolding reset_spec hit_spec
reset_too_short key spec now oldest ts l e order full more part =
    let w = spec.window_seconds * 1000 in
    let later = now + (oldest + w - now) / 1000 * 1000 in
    let same_now : evict now spec (oldest ∷ ts) ≡ oldest ∷ ts =
      evict_none now spec (oldest ∷ ts)
        (in_window-from now oldest spec (oldest ∷ ts) (omega arith) (omega arith, order)) in
    let same_later : evict later spec (oldest ∷ ts) ≡ oldest ∷ ts =
      evict_none later spec (oldest ∷ ts)
        (in_window-from later oldest spec (oldest ∷ ts) (omega arith) (omega arith, order)) in
    let reset_eq : reset_spec key spec now l ≡ (oldest + w - now) / 1000 = ground arith in
    rw reset_eq (ground arith)

evict-evict :
    (now later : ℕ) (spec : RateLimitSpec) (ts : List ℕ)
    → now ≤ later
    → evict later spec (evict now spec ts) ≡ evict later spec ts
evict-evict now later spec [] h = refl
evict-evict now later spec (t ∷ ts) h = ground (arith, evict-evict now later spec ts h)

remaining_suffices :
    (spec : RateLimitSpec) (now later : ℕ) (recent : List ℕ)
    → pos 0 <ℤ spec.count
    → length recent ≤ pos_part spec.count
    → now + (remaining spec now recent + 1) * 1000 ≤ later
    → length (evict later spec recent) < pos_part spec.count
unfolding remaining
remaining_suffices spec now later [] h full wait = ground arith
remaining_suffices spec now later (t ∷ ts) h full wait =
    ground (arith, length-keep-le (in_window later spec) ts)

-- One second more suffices: with at most the limit's count recorded, a hit is let through from one
-- second after the reset time on, if nothing else comes in between.
reset_suffices :
    (key : String) (spec : RateLimitSpec) (now later : ℕ) (l : RateLimiter)
    → pos 0 <ℤ spec.count
    → length (timestamps l key) ≤ pos_part spec.count
    → now + (reset_spec key spec now l + 1) * 1000 ≤ later
    → (hit_spec key spec later l).0 ≡ true
unfolding reset_spec hit_spec
reset_suffices key spec now later l h full wait =
    let recent = evict now spec (timestamps l key) in
    ground (
      arith,
      remaining_suffices spec now later recent h,
      evict-evict now later spec (timestamps l key),
      length-keep-le (in_window now spec) (timestamps l key),
    )
