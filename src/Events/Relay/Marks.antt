-- ===== src/Events/Relay/Marks.antt =====
-- What marking a record as failed or published does to what the storage knows of each record.
use hexastack.Base.{
  ℕ, ◌<◌, ◌≤◌, String, String_discrete, ◌≡◌, ◌≢◌, refl, sym, ◌∙◌, ◌⊎◌, some, inl, inr, arith,
  Option-cases,
}
use mathlib.Core.Path.{subst}
use hexastack.Dict.{lookup, string_key, lookup-insert_self, lookup-insert_ne}
use hexastack.Events.Outbox.{
  OutboxRecord, published, failed, Storage, mark_failed, mark_published, record_failed,
  record_published,
}

module _ {P : Type 0} where
  -- The storage has a record under the identifier, and `Q` holds of it.
  abbrev pub At : (OutboxRecord P → Type 0) → String → Storage P → Type 0
  At Q id s = (r : OutboxRecord P) × (lookup id s ≡ some r) × Q r

  -- Published, or failed once more than `k` times at least.
  abbrev pub IsSettled : ℕ → OutboxRecord P → Type 0
  IsSettled k r =
      ((r.status ≡ published) × (k ≤ r.retry_count)) ⊎ ((r.status ≡ failed) × (k < r.retry_count))

  module _ (Q R : OutboxRecord P → Type 0) (id : String) (s : Storage P) where
    pub own-failed :
        (err : String)
        → ((r : OutboxRecord P) → Q r → R (record_failed err r))
        → At Q id s
        → At R id (mark_failed id err s)
    unfolding mark_failed
    own-failed err f (r, e, q) = (
      record_failed err r,
      ground (arith, e, lookup-insert_self id (record_failed err r) s),
      f r q,
    )

    pub own-published :
        (now : ℕ)
        → ((r : OutboxRecord P) → Q r → R (record_published now r))
        → At Q id s
        → At R id (mark_published id now s)
    unfolding mark_published
    own-published now f (r, e, q) = (
      record_published now r,
      ground (arith, e, lookup-insert_self id (record_published now r) s),
      f r q,
    )

  other-failed :
      (j id err : String) (s : Storage P) → j ≢ id → lookup j (mark_failed id err s) ≡ lookup j s
  unfolding mark_failed
  other-failed j id err s n = elim (Option-cases (lookup id s)) [
    | inl e ↦ rw e refl
    | inr (r, e) ↦ rw e (lookup-insert_ne j id _ s n)
  ]

  other-published :
      (j id : String) (now : ℕ) (s : Storage P)
      → j ≢ id
      → lookup j (mark_published id now s) ≡ lookup j s
  unfolding mark_published
  other-published j id now s n = elim (Option-cases (lookup id s)) [
    | inl e ↦ rw e refl
    | inr (r, e) ↦ rw e (lookup-insert_ne j id _ s n)
  ]

  -- What both kinds of marks keep.
  pub record Kept (Q : OutboxRecord P → Type 0) : Type 0 where
    pub by_failure : (err : String) (r : OutboxRecord P) → Q r → Q (record_failed err r)
    pub by_success : (now : ℕ) (r : OutboxRecord P) → Q r → Q (record_published now r)

  module _ (Q : OutboxRecord P → Type 0) (kept : Kept Q) (j id : String) (s : Storage P) where
    pub failed-At : (err : String) → At Q j s → At Q j (mark_failed id err s)
    failed-At err h = elim (String_discrete j id) [
      | yes p ↦
          subst (λ z. At Q z s → At Q z (mark_failed id err s)) (sym p)
            (own-failed Q Q id s err (kept.by_failure err)) h
      | no n ↦ (h.0, other-failed j id err s n ∙ h.1, h.2)
    ]

    pub published-At : (now : ℕ) → At Q j s → At Q j (mark_published id now s)
    published-At now h = elim (String_discrete j id) [
      | yes p ↦
          subst (λ z. At Q z s → At Q z (mark_published id now s)) (sym p)
            (own-published Q Q id s now (kept.by_success now)) h
      | no n ↦ (h.0, other-published j id now s n ∙ h.1, h.2)
    ]

  unfoldable pub Known : ℕ → OutboxRecord P → Type 0
  Known k r = k ≤ r.retry_count

  pub known : (k : ℕ) → Kept (Known k)
  unfolding Known record_failed record_published
  known k = record { by_failure = λ err r h. omega arith; by_success = λ now r h. h }

  pub settled : (k : ℕ) → Kept (IsSettled k)
  unfolding record_failed record_published
  settled k = record { by_failure = λ err r h. ground arith; by_success = λ now r h. ground arith }
