-- ===== src/Events/Outbox/Pending.antt =====
-- What `fetch_pending` returns.
use mathlib.Core.List.{Perm}
use hexastack.Base.{
  ℕ, zero, suc, ◌≤◌, ◌≡◌, refl, ap, String, true, false, some, List, [], ◌∷◌, inl, inr, length,
  take, All, arith, Option-cases, keep-All,
}
use hexastack.Base.Int.{ℤ, pos, negsuc}
use hexastack.Base.Sort.{
  sort_by, sort_by-perm, length-sort_by, sort_by-All, sort_by-IsSorted, IsSorted, IsKeyOrder,
}
use hexastack.Dict.{
  lookup, insert, values, string_key, Distinct, insert-Distinct, insert-All, lookup-All,
  entries-lookup, values-All,
}
use hexastack.Events.Outbox.{
  OutboxRecord, Storage, is_eligible, older, eligible, fetch_pending, mark_failed, mark_published,
  save, save_all,
}

module _ {P : Type 0} where
  -- Each record is stored under its own identifier, and no identifier twice.
  abbrev pub Keyed : String × OutboxRecord P → Type 0
  Keyed (k, r) = r.id ≡ k

  pub record IsValid (s : Storage P) : Type 0 where
    pub distinct : Distinct s
    pub keyed : All Keyed s

  write-IsValid :
      (s : Storage P) (id : String) (r : OutboxRecord P)
      → IsValid s
      → r.id ≡ id
      → IsValid (insert id r s)
  write-IsValid s id r v e = record {
    distinct = insert-Distinct id r s v.distinct;
    keyed = insert-All Keyed id r s e v.keyed;
  }

  mark_failed-IsValid :
      (id err : String) (s : Storage P) → IsValid s → IsValid (mark_failed id err s)
  unfolding mark_failed
  mark_failed-IsValid id err s v = elim (Option-cases (lookup id s)) [
    | inl e ↦ rw e v
    | inr (r, e) ↦ rw e (write-IsValid s id _ v (lookup-All Keyed id r s e v.keyed))
  ]

  mark_published-IsValid :
      (id : String) (now : ℕ) (s : Storage P) → IsValid s → IsValid (mark_published id now s)
  unfolding mark_published
  mark_published-IsValid id now s v = elim (Option-cases (lookup id s)) [
    | inl e ↦ rw e v
    | inr (r, e) ↦ rw e (write-IsValid s id _ v (lookup-All Keyed id r s e v.keyed))
  ]

  save_all-IsValid :
      (rs : List (OutboxRecord P)) (s : Storage P) → IsValid s → IsValid (save_all rs s)
  unfolding save_all save
  save_all-IsValid [] s v = v
  save_all-IsValid (r ∷ rs) s v =
      save_all-IsValid rs (insert r.id r s) (write-IsValid s r.id r v refl)

  -- Saving records and marking one as failed or published keep the storage valid.
  pub updates-IsValid :
      (rs : List (OutboxRecord P)) (id err : String) (now : ℕ) (s : Storage P)
      → IsValid s
      → IsValid (save_all rs s) × IsValid (mark_failed id err s) × IsValid (mark_published id now s)
  updates-IsValid rs id err now s v =
      (save_all-IsValid rs s v, mark_failed-IsValid id err s v, mark_published-IsValid id now s v)

  pub older-IsKeyOrder : IsKeyOrder (older {P = P})
  older-IsKeyOrder = record { asym = λ x y h. ground arith; trans = λ x y z h k. ground arith }

  take-All :
      (Q : OutboxRecord P → Type 0) (n : ℕ) (rs : List (OutboxRecord P))
      → All Q rs
      → All Q (take n rs)
  take-All Q zero rs h = tt
  take-All Q (suc n) [] h = tt
  take-All Q (suc n) (r ∷ rs) h = (h.0, take-All Q n rs h.1)

  take-IsSorted :
      (n : ℕ) (rs : List (OutboxRecord P)) → IsSorted older rs → IsSorted older (take n rs)
  take-IsSorted zero rs h = tt
  take-IsSorted (suc n) [] h = tt
  take-IsSorted (suc n) (r ∷ rs) h =
      (take-All (λ c. older c r ≡ false) n rs h.0, take-IsSorted n rs h.1)

  take_of_length-le : (n : ℕ) (rs : List (OutboxRecord P)) → length rs ≤ n → take n rs ≡ rs
  take_of_length-le zero [] h = refl
  take_of_length-le zero (r ∷ rs) h = absurd (omega arith)
  take_of_length-le (suc n) [] h = refl
  take_of_length-le (suc n) (r ∷ rs) h = ap (◌∷◌ r) (take_of_length-le n rs (omega arith))

  abbrev pub Stored : Storage P → OutboxRecord P → Type 0
  Stored s r = (is_eligible r ≡ true) × (lookup r.id s ≡ some r)

  entries-lookup_id :
      (s es : Storage P)
      → All Keyed es
      → All (λ e. lookup e.0 s ≡ some e.1) es
      → All (λ e. lookup e.1.id s ≡ some e.1) es
  entries-lookup_id s [] v f = tt
  entries-lookup_id s ((k, r) ∷ es) v f = (ground arith, entries-lookup_id s es v.1 f.1)

  sorted-Stored : (s : Storage P) → IsValid s → All (Stored s) (sort_by older (eligible s))
  sorted-Stored s v = sort_by-All older (Stored s) (eligible s) (
      keep-All (λ r. lookup r.id s ≡ some r) is_eligible (values s)
        (values-All (λ r. lookup r.id s ≡ some r) s
          (entries-lookup_id s s v.keyed (entries-lookup s v.distinct))))

  -- Whatever the limit, `fetch_pending` returns stored records that are pending or failed with fewer
  -- than five retries, oldest first.
  pub fetch_pending-IsSorted :
      (limit : ℤ) (s : Storage P)
      → IsValid s
      → All (λ r. (is_eligible r ≡ true) × (lookup r.id s ≡ some r)) (fetch_pending limit s)
        × IsSorted older (fetch_pending limit s)
  unfolding fetch_pending
  fetch_pending-IsSorted (pos n) s v = (
    take-All (Stored s) n _ (sorted-Stored s v),
    take-IsSorted n _ (sort_by-IsSorted older older-IsKeyOrder (eligible s)),
  )
  fetch_pending-IsSorted (negsuc n) s v = (
    take-All (Stored s) _ _ (sorted-Stored s v),
    take-IsSorted _ _ (sort_by-IsSorted older older-IsKeyOrder (eligible s)),
  )

  -- With a limit that is not exceeded every eligible record is returned, each once.
  fetch_pending-perm :
      (n : ℕ) (s : Storage P)
      → length (eligible s) ≤ n
      → Perm (fetch_pending (pos n) s) (eligible s)
  unfolding fetch_pending
  fetch_pending-perm n s h =
      let all_of : take n (sort_by older (eligible s)) ≡ sort_by older (eligible s) =
        take_of_length-le n _ (omega (arith, length-sort_by older (eligible s))) in
      rw all_of (sort_by-perm older (eligible s))
