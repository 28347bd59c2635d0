-- ===== src/Auth/Webhooks/Replays.antt =====
-- Requests that are accepted more than once.
use mathlib.Core.Path.{subst}
use hexastack.Base.{
  ℕ, suc, ◌+◌, ◌*◌, ◌≤◌, Bool, true, false, not, ◌&&◌, Option, none, some, List, ◌∷◌, ◌++◌, ◌≡◌,
  refl, sym, ap, ◌∙◌, arith,
}
use hexastack.Base.Int.{ℤ, pos, ltb_ℤ, -ℤ_parts}
use hexastack.Base.Text.{Text, codes}
use hexastack.Base.Outcome.{
  Exn, Outcome, returned, invalid_webhook_signature, webhook_replay, ◌>>=◌, required, raise_if,
}
use hexastack.Auth.Webhooks.{
  Headers, get_header, Parsed, parse_signature, str, distance, any_same, is_nil, check_stripe,
  check_parsed, verify_stripe,
}

-- A chain that returns has passed its guard.
passed {ℓ} :
    {B : Type ℓ} (test : Bool) (e : Exn) (f : Unit {0} → Outcome B) {b : B}
    → raise_if test e >>= f ≡ returned b
    → (test ≡ false) × (f tt ≡ returned b)
passed true e f h = absurd (ground arith)
passed false e f h = (refl, h)

second_fails : (a b : Bool) → a && b ≡ false → a ≡ true → b ≡ false
second_fails true b h k = h
second_fails false b h k = absurd (ground arith)

negation_holds : (b : Bool) → not b ≡ false → b ≡ true
negation_holds true h = refl
negation_holds false h = absurd (ground arith)

got {ℓ κ} :
    {A : Type ℓ} {B : Type κ} (o : Option A) (e : Exn) (f : A → Outcome B) {b : B}
    → required e o >>= f ≡ returned b
    → (a : A) × (o ≡ some a) × (f a ≡ returned b)
got none e f h = absurd (ground arith)
got (some a) e f h = (a, refl, h)

-- The time that the signature header of a request gives.
abbrev pub time_of : Option Text → Option ℤ
time_of none = none
time_of (some raw_sig) = (parse_signature raw_sig).timestamp

abbrev pub signed_at : Headers → Option ℤ
signed_at headers = time_of (get_header headers (codes "Stripe-Signature"))

-- Near the time of the clock, where a tolerance is set.
abbrev pub Near : ℤ → ℕ → ℤ → Type 0
Near tolerance now timestamp =
    ltb_ℤ (pos 0) tolerance ≡ true → ltb_ℤ tolerance (pos (distance now timestamp)) ≡ false

module _ (digest : Text → List ℕ → Text) (tolerance : ℤ) (payload : List ℕ) (secret : Text) where
  checked :
      (now : ℕ) (sigs : List Text) (timestamp : ℤ)
      → check_stripe digest tolerance now payload secret sigs timestamp ≡ returned true
      → Near tolerance now timestamp
        × (any_same (digest secret (str timestamp ++ b'.' ∷ payload)) sigs ≡ true)
  checked now sigs timestamp h =
      let (p, h') =
        passed (ltb_ℤ (pos 0) tolerance && ltb_ℤ tolerance (pos (distance now timestamp)))
          webhook_replay _ h in
      let (q, h'') =
        passed (not (any_same (digest secret (str timestamp ++ b'.' ∷ payload)) sigs))
          invalid_webhook_signature _ h' in
      (
        λ l.
            second_fails (ltb_ℤ (pos 0) tolerance) (ltb_ℤ tolerance (pos (distance now timestamp)))
              p l,
        negation_holds (any_same (digest secret (str timestamp ++ b'.' ∷ payload)) sigs) q,
      )

  accepted_parsed :
      (now : ℕ) (p : Parsed)
      → check_parsed digest tolerance now payload secret p ≡ returned true
      → (timestamp : ℤ) × (p.timestamp ≡ some timestamp) × Near tolerance now timestamp
  accepted_parsed now p h =
      let (t, q, h') = got p.timestamp invalid_webhook_signature _ h in
      let (r, k) =
        passed (is_nil p.v1_signatures) invalid_webhook_signature
          (λ _. check_stripe digest tolerance now payload secret p.v1_signatures t) h' in
      (t, q, (checked now p.v1_signatures t k).0)

  accepted :
      (now : ℕ) (headers : Headers)
      → verify_stripe digest tolerance now payload headers secret ≡ returned true
      → (timestamp : ℤ) × (signed_at headers ≡ some timestamp) × Near tolerance now timestamp
  unfolding verify_stripe
  accepted now headers h =
      let (raw_sig, p, h') =
        got (get_header headers (codes "Stripe-Signature")) invalid_webhook_signature
          (λ raw. check_parsed digest tolerance now payload secret (parse_signature raw)) h in
      let (timestamp, q, near) = accepted_parsed now (parse_signature raw_sig) h' in
      (timestamp, ap time_of p ∙ q, near)

abbrev or_same : ℤ → Option ℤ → ℤ
or_same a none = a
or_same a (some b) = b

some-injective : {a b : ℤ} → some a ≡ some b → a ≡ b
some-injective {a} {b} h = ap (λ o. or_same a o) h

within :
    (d now later : ℕ) (t : ℤ)
    → ltb_ℤ (pos (suc d)) (pos (distance now t)) ≡ false
    → ltb_ℤ (pos (suc d)) (pos (distance later t)) ≡ false
    → later ≤ now + 2 * suc d
within d now later t h k = ground (arith, -ℤ_parts (pos now) t, -ℤ_parts (pos later) t)

-- Where a tolerance is set, two times at which the same request is accepted are no more than twice the
-- tolerance apart, whatever else the headers hold.
pub replay_window :
    (digest : Text → List ℕ → Text) (d now later : ℕ) (payload : List ℕ) (headers : Headers)
    (secret : Text)
    → verify_stripe digest (pos (suc d)) now payload headers secret ≡ returned true
    → verify_stripe digest (pos (suc d)) later payload headers secret ≡ returned true
    → later ≤ now + 2 * suc d
replay_window digest d now later payload headers secret h k =
    let (t, p, near) = accepted digest (pos (suc d)) payload secret now headers h in
    let (u, q, near') = accepted digest (pos (suc d)) payload secret later headers k in
    within d now later t (near (ground arith)) (
      subst (λ v. ltb_ℤ (pos (suc d)) (pos (distance later v)) ≡ false) {x = u}
        (some-injective (sym q ∙ p)) (near' (ground arith)))
