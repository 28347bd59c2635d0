-- ===== src/Core/CacheBreaker/Counting.antt =====
-- How long the breaker in the cache remembers failures, and what a success does.
use hexastack.Base.{
  ℕ, ◌+◌, ◌*◌, ◌≤◌, ◌<◌, ◌≡◌, ap, ◌∙◌, String, Bool, true, some, List, [], ◌∷◌, leb, inl, inr,
  Bool-cases, arith,
}
use hexastack.Dict.{string_key}
use hexastack.Core.Cache.{Store}
use hexastack.Core.Cache.Visible.{visible, visible-set, get-has-visible, or_default}
use hexastack.Core.CircuitBreaker.{closed}
use hexastack.Core.CacheBreaker.{
  Data, fresh, CacheCircuitBreaker, get_data, save_data, evaluate, evaluate_in, admit_in, state,
  allow_execution, record_success, failed, record_failure,
}

module _ (c : CacheCircuitBreaker) (name : String) where
  -- What the breaker holds for the name at a time.
  abbrev pub data_at : ℕ → Store Data → Data
  data_at now s = or_default fresh (visible now s (c.key name))

  get_data-data_at : (now : ℕ) (s : Store Data) → (get_data c name now s).0 ≡ data_at now s
  unfolding get_data
  get_data-data_at now s = (get-has-visible (c.key name) fresh now s).0

  data_at-save_data :
      (d : Data) (now t : ℕ) (s : Store Data)
      → t ≤ now + c.recovery_timeout * 3
      → data_at t (save_data c name d now s) ≡ d
  unfolding save_data
  data_at-save_data d now t s h =
      ground
        (arith, visible-set (c.key name) (c.key name) d (some (c.recovery_timeout * 3)) now t s)

  data_at-save_data_expired :
      (d : Data) (now t : ℕ) (s : Store Data)
      → now + c.recovery_timeout * 3 < t
      → data_at t (save_data c name d now s) ≡ fresh
  unfolding save_data
  data_at-save_data_expired d now t s h =
      ground
        (arith, visible-set (c.key name) (c.key name) d (some (c.recovery_timeout * 3)) now t s)

  -- Failures at the given times.
  pub failures : List ℕ → Store Data → Store Data
  failures [] s = s
  failures (t ∷ ts) s = failures ts (record_failure c name t s)

  abbrev pub last : ℕ → List ℕ → ℕ
  last t [] = t
  last t (t' ∷ ts) = last t' ts

  -- Each time comes no later than three timeouts after the one before.
  abbrev pub Spaced : ℕ → List ℕ → Type 0
  Spaced t [] = Unit
  Spaced t (t' ∷ ts) = (t' ≤ t + c.recovery_timeout * 3) × Spaced t' ts

  -- `allow_execution` on the data that was read.
  abbrev allow_data : ℕ → Data → Store Data → Bool × Store Data
  allow_data now d s =
      let (d', s') = evaluate c name now (d, s) in admit_in c d'.state name now (d', s')

  closed_grants :
      (now : ℕ) (d : Data) (s : Store Data)
      → d.state ≡ closed
      → ((evaluate c name now (d, s)).0.state ≡ closed) × ((allow_data now d s).0 ≡ true)
  unfolding evaluate evaluate_in admit_in
  closed_grants now d s o = ground (arith, o)

  -- After a failure and more than three timeouts without a call, the breaker has forgotten it, and every
  -- failure before it, even if it was open: it is closed, with no trial asked for.
  pause_forgets :
      (now t : ℕ) (s : Store Data)
      → now + c.recovery_timeout * 3 < t
      → ((state c name t (record_failure c name now s)).0 ≡ closed)
        × ((allow_execution c name t (record_failure c name now s)).0 ≡ true)
        × (data_at t (record_failure c name now s) ≡ fresh)
  unfolding record_failure state allow_execution evaluate evaluate_in admit_in
  pause_forgets now t s lt =
      let s' =
        save_data c name (failed c now (get_data c name now s).0) now (get_data c name now s).1 in
      let new =
        data_at-save_data_expired (failed c now (get_data c name now s).0) now t
          (get_data c name now s).1 lt in
      (ground (arith, get_data-data_at t s', new), ground (arith, get_data-data_at t s', new), new)

  record_success-closed :
      (now t : ℕ) (s : Store Data) → (data_at t (record_success c name now s)).state ≡ closed
  unfolding record_success
  record_success-closed now t s =
      let (d, s') = get_data c name now s in
      let d' = record d { state = closed; failure_count = 0; half_open_trials = 0 } in
      elim (Bool-cases (leb t (now + c.recovery_timeout * 3))) [
        | inl e ↦ ap (λ x. x.state) (data_at-save_data d' now t s' (ground (arith, e)))
        | inr e ↦ ap (λ x. x.state) (data_at-save_data_expired d' now t s' (ground (arith, e)))
      ]

  -- A success closes the breaker whatever its state was, also when it is open and its timeout has not
  -- passed.
  success_closes :
      (now t : ℕ) (s : Store Data)
      → ((state c name t (record_success c name now s)).0 ≡ closed)
        × ((allow_execution c name t (record_success c name now s)).0 ≡ true)
  unfolding record_success state allow_execution
  success_closes now t s =
      let r = get_data c name t (record_success c name now s) in
      closed_grants t r.0 r.1 (
        ap (λ x. x.state) (get_data-data_at t (record_success c name now s))
        ∙ record_success-closed now t s)
