-- ===== src/Core/RateLimit/Window.antt =====
-- The promise of the limiter: in no window of the limit's length are more hits let through than the
-- limit says.
use hexastack.Base.{
  ℕ, ◌+◌, ◌≤◌, ◌<◌, ◌≡◌, refl, String, Bool, false, ◌&&◌, List, [], ◌∷◌, ◌++◌, inl, inr, leb,
  if◌then◌else◌, length, keep, arith, Bool-cases, length-append, length-keep-le, keep-append, ap,
  ◌∙◌,
}
use hexastack.Base.Int.{pos, pos_part, ltb_ℤ}
use hexastack.Base.Outcome.{Outcome, returned, raised, interrupted}
use hexastack.Base.Text.{Text}
use hexastack.Dict.{string_key, lookup-insert_self}
use hexastack.Core.RateLimit.{
  RateLimitSpec, parse_rate_limit, RateLimiter, or_empty, timestamps, in_window, evict, hit_spec,
  hit,
}

-- The times are those of one clock, which does not run backwards.
abbrev pub From : ℕ → List ℕ → Type 0
From start [] = Unit
From start (t ∷ ts) = (start ≤ t) × From t ts

abbrev pub let_through : Outcome Bool → Bool
let_through (returned b) = b
let_through (raised e) = false
let_through interrupted = false

-- The times at which `hit` returns `True`, of calls at the given times.
pub admitted : String → Text → List ℕ → RateLimiter → List ℕ
admitted key limit [] l = []
admitted key limit (t ∷ ts) l =
    let (r, l') = hit key limit t l in
    let rest = admitted key limit ts l' in if let_through r then t ∷ rest else rest

-- How many of the times lie in the window that ends at `x`: after `x` less its length, up to `x`.
abbrev pub within : ℕ → RateLimitSpec → List ℕ → List ℕ
within x spec ts = keep (λ t. in_window x spec t && leb t x) ts

-- The same for the stored list alone.
sliding : String → RateLimitSpec → List ℕ → RateLimiter → List ℕ
sliding key spec [] l = []
sliding key spec (t ∷ ts) l =
    let (r, l') = hit_spec key spec t l in
    let rest = sliding key spec ts l' in if r then t ∷ rest else rest

admitted-sliding :
    (key : String) (limit : Text) (spec : RateLimitSpec) (ts : List ℕ) (l : RateLimiter)
    → parse_rate_limit limit ≡ returned spec
    → admitted key limit ts l ≡ sliding key spec ts l
unfolding admitted sliding hit
admitted-sliding key limit spec [] l p = refl
admitted-sliding key limit spec (t ∷ ts) l p =
    ground (arith, admitted-sliding key limit spec ts (hit_spec key spec t l).1 p)

-- What is let through later than `x` does not count for the window that ends at `x`.
within-sliding_later :
    (x : ℕ) (key : String) (spec : RateLimitSpec) (start : ℕ) (ts : List ℕ) (l : RateLimiter)
    → From start ts
    → x < start
    → length (within x spec (sliding key spec ts l)) ≡ 0
unfolding sliding
within-sliding_later x key spec start [] l f h = refl
within-sliding_later x key spec start (t ∷ ts) l f h =
    ground (arith, within-sliding_later x key spec t ts (hit_spec key spec t l).1 f.1)

-- What has been evicted at `now` is in no later window.
within-evict :
    (x now : ℕ) (spec : RateLimitSpec) (ts : List ℕ)
    → now ≤ x
    → length (within x spec (evict now spec ts)) ≡ length (within x spec ts)
within-evict x now spec [] h = refl
within-evict x now spec (t ∷ ts) h = ground (arith, within-evict x now spec ts h)

hit_spec-timestamps :
    (key : String) (spec : RateLimitSpec) (now : ℕ) (l : RateLimiter)
    → let recent = evict now spec (timestamps l key) in
      ((hit_spec key spec now l).0 ≡ ltb_ℤ (pos (length recent)) spec.count)
      × (timestamps (hit_spec key spec now l).1 key
          ≡ (if ltb_ℤ (pos (length recent)) spec.count then recent ++ now ∷ [] else recent))
unfolding hit_spec
hit_spec-timestamps key spec now l =
    let recent = evict now spec (timestamps l key) in
    elim (Bool-cases (ltb_ℤ (pos (length recent)) spec.count)) [
      | inl e ↦ rw e (refl, ap or_empty (lookup-insert_self key (recent ++ now ∷ []) l.hits))
      | inr e ↦ rw e (refl, ap or_empty (lookup-insert_self key recent l.hits))
    ]

within-append :
    (x : ℕ) (spec : RateLimitSpec) (ts us : List ℕ)
    → length (within x spec (ts ++ us)) ≡ length (within x spec ts) + length (within x spec us)
within-append x spec ts us =
    ap length (keep-append (λ t. in_window x spec t && leb t x) ts us)
    ∙ length-append (within x spec ts) (within x spec us)

sliding_bound :
    (x : ℕ) (key : String) (spec : RateLimitSpec) (start : ℕ) (ts : List ℕ) (l : RateLimiter)
    → From start ts
    → length (timestamps l key) ≤ pos_part spec.count
    → length (within x spec (timestamps l key)) + length (within x spec (sliding key spec ts l))
      ≤ pos_part spec.count
unfolding sliding
sliding_bound x key spec start [] l f h =
    omega (arith, length-keep-le (λ t. in_window x spec t && leb t x) (timestamps l key))
sliding_bound x key spec start (t ∷ ts) l f h =
    let old = timestamps l key in
    let recent = evict t spec old in
    elim (Bool-cases (leb t x)) [
      | inr before ↦
          let none_later : length (within x spec (sliding key spec (t ∷ ts) l)) ≡ 0 =
            within-sliding_later x key spec t (t ∷ ts) l (omega arith, f.1) (ground arith) in
          omega (arith, none_later, length-keep-le (λ t. in_window x spec t && leb t x) old)
      | inl e ↦ ground (
        arith,
        hit_spec-timestamps key spec t l,
        within-evict x t spec old,
        within-append x spec recent (t ∷ []),
        length-append recent (t ∷ []),
        length-keep-le (in_window t spec) old,
        sliding_bound x key spec t ts (hit_spec key spec t l).1 f.1,
      )
    ]

-- Of hits of one key under one limit, at times that do not run backwards, starting with nothing
-- recorded for the key: no window of the limit's length holds more that were let through than the
-- limit's count, wherever it ends.
pub admitted_bound :
    (x : ℕ) (key : String) (limit : Text) (spec : RateLimitSpec) (ts : List ℕ) (l : RateLimiter)
    → parse_rate_limit limit ≡ returned spec
    → timestamps l key ≡ []
    → From 0 ts
    → length (within x spec (admitted key limit ts l)) ≤ pos_part spec.count
admitted_bound x key limit spec ts l p e f =
    rw (admitted-sliding key limit spec ts l p)
      (omega (arith, sliding_bound x key spec 0 ts l f (omega (arith, ap length e))))
