-- ===== src/Events/Tasks/Leases.antt =====
-- The lease discipline: which records a history of calls can produce, and that a lease in force keeps
-- every other worker away.
use hexastack.Base.{
  keep-All, ℕ, ◌<◌, ◌≡◌, refl, String, true, Option, none, some, List, [], ◌∷◌, inl, inr, All,
  arith, Bool-cases, Option-cases, is_some,
}
use hexastack.Base.Sort.{sort_by, sort_by-All}
use hexastack.Dict.{
  lookup, insert, values, string_key, Distinct, insert-Distinct, insert-All, lookup-All,
  entries-lookup, values-All,
}
use hexastack.Events.Tasks.{
  TaskState, leased, failed, TaskRecord, acquire_lease, complete_task, fail_task, Queue, enqueue,
  is_available, candidates, before, lease_first, lease_next, not_owner, complete, fail, renew_lease,
  Call, enqueues, leases, completes, fails, renews, step, run,
}

module _ {P : Type 0} where
  -- A leased task has an owner and an expiry and at least one attempt; any other has neither. The state
  -- FAILED is never used.
  abbrev pub InState : TaskState → TaskRecord P → Type 0
  InState leased t =
      (is_some t.lease_owner ≡ true) × (is_some t.lease_expires_at ≡ true) × (0 < t.attempts)
  InState failed t = ⊥
  InState _ t = (t.lease_owner ≡ none) × (t.lease_expires_at ≡ none)

  pub record IsValidTask (e : String × TaskRecord P) : Type 0 where
    pub keyed : e.1.id ≡ e.0
    pub in_state : InState e.1.state e.1

  pub record IsValid (q : Queue P) : Type 0 where
    pub distinct : Distinct q
    pub tasks : All IsValidTask q

  acquire_lease-IsValidTask :
      (id w : String) (d now : ℕ) (t : TaskRecord P)
      → IsValidTask (id, t)
      → IsValidTask (id, (acquire_lease w d now t).1)
  unfolding acquire_lease
  acquire_lease-IsValidTask id w d now t v = ground arith

  complete_task-IsValidTask :
      (id : String) (now : ℕ) (t : TaskRecord P)
      → IsValidTask (id, t)
      → IsValidTask (id, complete_task now t)
  unfolding complete_task
  complete_task-IsValidTask id now t v = ground arith

  fail_task-IsValidTask :
      (id err : String) (t : TaskRecord P) → IsValidTask (id, t) → IsValidTask (id, fail_task err t)
  unfolding fail_task
  fail_task-IsValidTask id err t v = ground arith

  write-IsValid :
      (q : Queue P) (id : String) (t : TaskRecord P)
      → IsValid q
      → IsValidTask (id, t)
      → IsValid (insert id t q)
  write-IsValid q id t v p = record {
    distinct = insert-Distinct id t q v.distinct;
    tasks = insert-All IsValidTask id t q p v.tasks;
  }

  -- What is found under an identifier.
  abbrev pub Found : Queue P → TaskRecord P → Type 0
  Found q t = lookup t.id q ≡ some t

  -- In a valid queue every value is found under its own identifier.
  entries-Found :
      (q es : Queue P)
      → All IsValidTask es
      → All (λ e. lookup e.0 q ≡ some e.1) es
      → All (λ e. Found q e.1) es
  entries-Found q [] v f = tt
  entries-Found q ((k, t) ∷ es) v f = (ground arith, entries-Found q es v.1 f.1)

  pub values-Found : (q : Queue P) → IsValid q → All (Found q) (values q)
  values-Found q v =
      values-All (Found q) q (entries-Found q q v.tasks (entries-lookup q v.distinct))

  -- What the candidates are, sorted too: available, and in the queue.
  abbrev pub Candidate : Queue P → Option (List String) → ℕ → TaskRecord P → Type 0
  Candidate q names now t = (is_available names now t ≡ true) × Found q t

  pub sorted-Candidate :
      (q : Queue P) (names : Option (List String)) (now : ℕ)
      → IsValid q
      → All (Candidate q names now) (sort_by before (candidates names now q))
  sorted-Candidate q names now v =
      sort_by-All before (Candidate q names now) (candidates names now q)
        (keep-All (Found q) (is_available names now) (values q) (values-Found q v))

  lease_first-IsValid :
      (q : Queue P) (w : String) (names : Option (List String)) (d now later : ℕ)
      (ts : List (TaskRecord P))
      → IsValid q
      → All (Candidate q names now) ts
      → IsValid (lease_first w d later ts q).1
  unfolding lease_first
  lease_first-IsValid q w names d now later [] v h = v
  lease_first-IsValid q w names d now later (t ∷ ts) v h =
      write-IsValid q t.id _ v
        (acquire_lease-IsValidTask t.id w d later t (lookup-All IsValidTask t.id t q h.0.1 v.tasks))

  -- Every method keeps the queue valid: identifiers are unique and those of the records, a leased task
  -- has an owner, an expiry and an attempt, and any other has neither owner nor expiry.
  pub step-IsValid : (q : Queue P) (c : Call P) → IsValid q → IsValid (step q c)
  unfolding step enqueue lease_next complete fail renew_lease
  step-IsValid q (enqueues id now name p key prio most) v =
      write-IsValid q id _ v (record { keyed = refl; in_state = (refl, refl) })
  step-IsValid q (leases w names d now later) v =
      lease_first-IsValid q w names d now later _ v (sorted-Candidate q names now v)
  step-IsValid q (completes id w now) v = elim (Option-cases (lookup id q)) [
    | inl e ↦ rw e v
    | inr (t, e) ↦ rw e (elim (Bool-cases (not_owner w t)) [
      | inl o ↦ rw o v
      | inr o ↦ rw o (
          write-IsValid q id _ v
            (complete_task-IsValidTask id now t (lookup-All IsValidTask id t q e v.tasks)))
    ])
  ]
  step-IsValid q (fails id err w) v = elim (Option-cases (lookup id q)) [
    | inl e ↦ rw e v
    | inr (t, e) ↦ rw e (elim (Bool-cases (not_owner w t)) [
      | inl o ↦ rw o v
      | inr o ↦ rw o (
          write-IsValid q id _ v
            (fail_task-IsValidTask id err t (lookup-All IsValidTask id t q e v.tasks)))
    ])
  ]
  step-IsValid q (renews id w d now) v = elim (Option-cases (lookup id q)) [
    | inl e ↦ rw (e, step) v
    | inr (t, e) ↦
        rw (e, step)
          (write-IsValid q id _ v
            (acquire_lease-IsValidTask id w d now t (lookup-All IsValidTask id t q e v.tasks)))
  ]

  run-IsValid : (q : Queue P) (cs : List (Call P)) → IsValid q → IsValid (run q cs)
  unfolding run
  run-IsValid q [] v = v
  run-IsValid q (c ∷ cs) v = run-IsValid (step q c) cs (step-IsValid q c v)

  -- After any history of calls the queue is valid.
  pub run-empty-IsValid : (cs : List (Call P)) → IsValid (run [] cs)
  run-empty-IsValid cs = run-IsValid [] cs (record { distinct = tt; tasks = tt })
