-- ===== src/Events/Outbox/Oldest.antt =====
-- `fetch_pending` against a description of what is due.
use hexastack.Base.{
  ℕ, zero, suc, ◌≤◌, ◌<◌, ◌≡◌, refl, ap, true, false, some, List, [], ◌∷◌, ◌⊎◌, inl, inr, length,
  take, length-take-le, All, Member, All-keep, arith,
}
use hexastack.Base.Int.{pos}
use hexastack.Base.Sort.{sort_by, All-sort_by, sort_by-IsSorted, IsSorted}
use hexastack.Dict.{lookup, values, string_key, All-lookup}
use hexastack.Events.Outbox.{
  OutboxStatus, pending, published, failed, OutboxRecord, Storage, is_eligible, older, eligible,
  fetch_pending,
}
use hexastack.Events.Outbox.Pending.{IsValid, Stored, older-IsKeyOrder, fetch_pending-IsSorted}

module _ {P : Type 0} where
  -- The record waits for delivery.
  abbrev pub IsDue : OutboxRecord P → Type 0
  IsDue r = ((r.status ≡ pending) ⊎ (r.status ≡ failed)) × (r.retry_count < 5)

  abbrev pub IsStored : Storage P → OutboxRecord P → Type 0
  IsStored s r = lookup r.id s ≡ some r

  abbrev pub Ascending : List (OutboxRecord P) → Type 0
  Ascending [] = Unit
  Ascending (x ∷ xs) = All (λ y. x.created_at ≤ y.created_at) xs × Ascending xs

  -- The record is among the fetched ones, or these are `n` that are all as old.
  abbrev pub FetchedOrLater : ℕ → List (OutboxRecord P) → OutboxRecord P → Type 0
  FetchedOrLater n rs r =
      Member r rs ⊎ ((length rs ≡ n) × All (λ x. x.created_at ≤ r.created_at) rs)

  is_eligible-IsDue :
      (st : OutboxStatus) (r : OutboxRecord P) → r.status ≡ st → is_eligible r ≡ true → IsDue r
  is_eligible-IsDue pending r e h = (inl e, ground (arith, e, h))
  is_eligible-IsDue failed r e h = (inr e, ground (arith, e, h))
  is_eligible-IsDue published r e h = absurd (ground (arith, e, h))

  IsDue-is_eligible : (r : OutboxRecord P) → IsDue r → is_eligible r ≡ true
  IsDue-is_eligible r (inl e, h) = ground (arith, e, h)
  IsDue-is_eligible r (inr e, h) = ground (arith, e, h)

  Stored-IsDue :
      (s : Storage P) (rs : List (OutboxRecord P))
      → All (Stored s) rs
      → All (λ r. IsStored s r × IsDue r) rs
  Stored-IsDue s [] h = tt
  Stored-IsDue s (r ∷ rs) h =
      ((h.0.1, is_eligible-IsDue r.status r refl h.0.0), Stored-IsDue s rs h.1)

  not_older :
      (x : OutboxRecord P) (rs : List (OutboxRecord P))
      → All (λ y. older y x ≡ false) rs
      → All (λ y. x.created_at ≤ y.created_at) rs
  not_older x [] h = tt
  not_older x (r ∷ rs) h = (ground (arith, h.0), not_older x rs h.1)

  IsSorted-Ascending : (rs : List (OutboxRecord P)) → IsSorted older rs → Ascending rs
  IsSorted-Ascending [] h = tt
  IsSorted-Ascending (r ∷ rs) h = (not_older r rs h.0, IsSorted-Ascending rs h.1)

  All-nothing : (rs : List (OutboxRecord P)) → All (FetchedOrLater 0 []) rs
  All-nothing [] = tt
  All-nothing (r ∷ rs) = (inr (refl, tt), All-nothing rs)

  FetchedOrLater-cons :
      (x r : OutboxRecord P) (n : ℕ) (rs : List (OutboxRecord P))
      → x.created_at ≤ r.created_at
      → FetchedOrLater n rs r
      → FetchedOrLater (suc n) (x ∷ rs) r
  FetchedOrLater-cons x r n rs le (inl m) = inl (inr m)
  FetchedOrLater-cons x r n rs le (inr (e, a)) = inr (ap suc e, (le, a))

  All-FetchedOrLater-cons :
      (x : OutboxRecord P) (n : ℕ) (rs ys : List (OutboxRecord P))
      → All (λ y. x.created_at ≤ y.created_at) ys
      → All (FetchedOrLater n rs) ys
      → All (FetchedOrLater (suc n) (x ∷ rs)) ys
  All-FetchedOrLater-cons x n rs [] le h = tt
  All-FetchedOrLater-cons x n rs (y ∷ ys) le h =
      (FetchedOrLater-cons x y n rs le.0 h.0, All-FetchedOrLater-cons x n rs ys le.1 h.1)

  take-FetchedOrLater :
      (n : ℕ) (rs : List (OutboxRecord P)) → Ascending rs → All (FetchedOrLater n (take n rs)) rs
  take-FetchedOrLater zero rs h = All-nothing rs
  take-FetchedOrLater (suc n) [] h = tt
  take-FetchedOrLater (suc n) (r ∷ rs) h = (
    inl (inl refl),
    All-FetchedOrLater-cons r n (take n rs) rs h.0 (take-FetchedOrLater n rs h.1),
  )

  fetch_pending-all :
      (n : ℕ) (s : Storage P) (r : OutboxRecord P)
      → IsStored s r
      → IsDue r
      → FetchedOrLater n (fetch_pending (pos n) s) r
  unfolding fetch_pending
  fetch_pending-all n s r f d =
      let sorted = IsSorted-Ascending _ (sort_by-IsSorted older older-IsKeyOrder (eligible s)) in
      let fetched = take n (sort_by older (eligible s)) in
      let all_eligible =
        All-sort_by older (FetchedOrLater n fetched) (eligible s)
          (take-FetchedOrLater n _ sorted) in
      All-lookup (λ x. is_eligible x ≡ true → FetchedOrLater n fetched x) r.id r s f
        (All-keep (FetchedOrLater n fetched) is_eligible (values s) all_eligible)
        (IsDue-is_eligible r d)

  -- `fetch_pending` with a limit of `n` returns at most `n` records, all stored and due, that is, pending or
  -- failed with fewer than five retries, in the order of their creation. It misses no due record that is
  -- stored, unless it returns `n`, none of which was created later than the missed one.
  pub fetch_pending-Oldest :
      (n : ℕ) (s : Storage P)
      → IsValid s
      → (length (fetch_pending (pos n) s) ≤ n)
        × All (λ r. IsStored s r × IsDue r) (fetch_pending (pos n) s)
        × Ascending (fetch_pending (pos n) s)
        × ((r : OutboxRecord P)
            → IsStored s r
            → IsDue r
            → FetchedOrLater n (fetch_pending (pos n) s) r)
  fetch_pending-Oldest n s v =
      let (stored, sorted) = fetch_pending-IsSorted (pos n) s v in
      (
        unfold fetch_pending in (length-take-le n (sort_by older (eligible s))),
        Stored-IsDue s _ stored,
        IsSorted-Ascending _ sorted,
        fetch_pending-all n s,
      )
