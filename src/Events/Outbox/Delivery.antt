-- ===== src/Events/Outbox/Delivery.antt =====
-- What reporting a delivery does to later fetches.
use mathlib.Core.Path.{subst}
use hexastack.Base.{
  ℕ, ◌+◌, ◌≡◌, refl, ◌≢◌, String, true, some, List, [], ◌∷◌, inl, inr, length, All, arith,
  Option-cases, ltb,
}
use hexastack.Base.Int.{ℤ}
use hexastack.Dict.{lookup, string_key, lookup-insert_self}
use hexastack.Events.Outbox.{
  published, OutboxRecord, Storage, record_failed, record_published, is_eligible, fetch_pending,
  mark_failed, mark_published,
}
use hexastack.Events.Outbox.Pending.{IsValid, updates-IsValid, fetch_pending-IsSorted}

module _ {P : Type 0} where
  -- Failed deliveries of one record, one after the other.
  pub fail_times : String → List String → Storage P → Storage P
  fail_times id [] s = s
  fail_times id (e ∷ es) s = fail_times id es (mark_failed id e s)

  lookup-mark_failed :
      (id err : String) (s : Storage P) (r : OutboxRecord P)
      → lookup id s ≡ some r
      → lookup id (mark_failed id err s) ≡ some (record_failed err r)
  unfolding mark_failed
  lookup-mark_failed id err s r e = ground (arith, e, lookup-insert_self id (record_failed err r) s)

  -- A stored record that is not published stays eligible after failed deliveries exactly as long as its
  -- retries are fewer than five in all; the record is never lost.
  pub fail_times-eligible :
      (id : String) (errs : List String) (s : Storage P) (r : OutboxRecord P)
      → lookup id s ≡ some r
      → r.status ≢ published
      → (r' : OutboxRecord P) × (lookup id (fail_times id errs s) ≡ some r')
        × (r'.retry_count ≡ r.retry_count + length errs)
        × (r'.payload ≡ r.payload)
        × (is_eligible r' ≡ ltb (r.retry_count + length errs) 5)
  unfolding fail_times record_failed
  fail_times-eligible id [] s r e n = (r, e, omega arith, refl, ground arith)
  fail_times-eligible id (err ∷ errs) s r e n =
      let (r', found, count, kept, open_) =
        fail_times-eligible id errs (mark_failed id err s) (record_failed err r)
          (lookup-mark_failed id err s r e) (λ p. cc p) in
      (r', found, ground arith, ground arith, ground arith)

  drop_id :
      (Q : OutboxRecord P → Type 0) (id : String) (rs : List (OutboxRecord P))
      → ((r : OutboxRecord P) → Q r → r.id ≢ id)
      → All Q rs
      → All (λ r. r.id ≢ id) rs
  drop_id Q id [] f h = tt
  drop_id Q id (r ∷ rs) f h = (f r h.0, drop_id Q id rs f h.1)

  lookup-mark_published :
      (id : String) (now : ℕ) (s : Storage P) (r : OutboxRecord P)
      → lookup id (mark_published id now s) ≡ some r
      → r.status ≡ published
  unfolding mark_published record_published
  lookup-mark_published id now s r e = elim (Option-cases (lookup id s)) [
    | inl none_ ↦ absurd (ground arith)
    | inr (r', some_) ↦ ground (arith, lookup-insert_self id (record_published now r') s)
  ]

  -- Once a record is marked as published, no fetch returns it.
  mark_published_final :
      (id : String) (now : ℕ) (limit : ℤ) (s : Storage P)
      → IsValid s
      → All (λ r. r.id ≢ id) (fetch_pending limit (mark_published id now s))
  mark_published_final id now limit s v =
      let s' = mark_published id now s in
      drop_id (λ r. (is_eligible r ≡ true) × (lookup r.id s' ≡ some r)) id (fetch_pending limit s')
        (λ r h e. not_stored r h.0 h.1 e)
        (fetch_pending-IsSorted limit s' (updates-IsValid [] id "" now s v).2).0
    where
      not_stored :
          (r : OutboxRecord P)
          → is_eligible r ≡ true
          → lookup r.id (mark_published id now s) ≡ some r
          → r.id ≡ id
          → ⊥
      not_stored r ok found e =
          let there : lookup id (mark_published id now s) ≡ some r =
            subst (λ k. lookup k (mark_published id now s) ≡ some r) e found in
          ground (arith, lookup-mark_published id now s r there)
