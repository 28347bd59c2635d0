-- ===== src/Events/Tasks/Retries.antt =====
-- Attempts, dead letters, and what happens to a task whose workers never report.
use hexastack.Base.{
  ℕ, zero, suc, ◌+◌, ◌≡◌, refl, ◌⊎◌, inl, inr, String, false, Option, none, some, List, [], ◌∷◌,
  All, Option-cases, Bool-cases, arith, max,
}
use hexastack.Base.Int.{pos, leb_ℤ, ◌≤ℤ◌}
use hexastack.Dict.{lookup, values, string_key, lookup-insert_self, All-insert, All-lookup}
use hexastack.Events.Tasks.{
  TaskState, pending, leased, completed, dead_lettered, TaskRecord, acquire_lease, complete_task,
  fail_task, Queue, enqueue, lease_first, lease_next, not_owner, complete, fail, renew_found,
  renew_lease, Call, enqueues, leases, completes, fails, renews, step, run,
}
use hexastack.Events.Tasks.Leases.{IsValid, Candidate, sorted-Candidate, step-IsValid}

abbrev pub IsTerminal : TaskState → Type 0
IsTerminal completed = Unit
IsTerminal dead_lettered = Unit
IsTerminal _ = ⊥

-- When a lease runs out.
abbrev pub expiry : Option ℕ → ℕ
expiry none = 0
expiry (some e) = e

module _ {P : Type 0} where
  -- A pending task has not been tried, or has attempts left; a dead letter has none left.
  abbrev pub Budget : TaskState → TaskRecord P → Type 0
  Budget pending t = (t.attempts ≡ 0) ⊎ (pos (t.attempts + 1) ≤ℤ t.max_attempts)
  Budget dead_lettered t = t.max_attempts ≤ℤ pos t.attempts
  Budget _ t = Unit

  abbrev pub InBudget : TaskRecord P → Type 0
  InBudget t = Budget t.state t

  acquire_lease-InBudget :
      (w : String) (d now : ℕ) (t : TaskRecord P)
      → InBudget t
      → InBudget (acquire_lease w d now t).1
  unfolding acquire_lease
  acquire_lease-InBudget w d now t h = ground arith

  fail_task-InBudget : (err : String) (t : TaskRecord P) → InBudget (fail_task err t)
  unfolding fail_task
  fail_task-InBudget err t = elim (Bool-cases (leb_ℤ t.max_attempts (pos t.attempts))) [
    | inl e ↦ rw e (ground arith)
    | inr e ↦ rw e (inr (ground arith))
  ]

  abbrev AllInBudget : Queue P → Type 0
  AllInBudget q = All InBudget (values q)

  lease_first-InBudget :
      (q : Queue P) (w : String) (names : Option (List String)) (d now later : ℕ)
      (ts : List (TaskRecord P))
      → AllInBudget q
      → All (Candidate q names now) ts
      → AllInBudget (lease_first w d later ts q).1
  unfolding lease_first
  lease_first-InBudget q w names d now later [] b h = b
  lease_first-InBudget q w names d now later (t ∷ ts) b h =
      All-insert InBudget t.id _ q
        (acquire_lease-InBudget w d later t (All-lookup InBudget t.id t q h.0.1 b)) b

  step-InBudget : (q : Queue P) (c : Call P) → IsValid q → AllInBudget q → AllInBudget (step q c)
  unfolding step enqueue lease_next complete fail renew_lease complete_task
  step-InBudget q (enqueues id now name p key prio most) v b =
      All-insert InBudget id _ q (inl refl) b
  step-InBudget q (leases w names d now later) v b =
      lease_first-InBudget q w names d now later _ b (sorted-Candidate q names now v)
  step-InBudget q (completes id w now) v b = elim (Option-cases (lookup id q)) [
    | inl e ↦ rw e b
    | inr (t, e) ↦ rw e (elim (Bool-cases (not_owner w t)) [
      | inl o ↦ rw o b
      | inr o ↦ rw o (All-insert InBudget id _ q tt b)
    ])
  ]
  step-InBudget q (fails id err w) v b = elim (Option-cases (lookup id q)) [
    | inl e ↦ rw e b
    | inr (t, e) ↦ rw e (elim (Bool-cases (not_owner w t)) [
      | inl o ↦ rw o b
      | inr o ↦ rw o (All-insert InBudget id _ q (fail_task-InBudget err t) b)
    ])
  ]
  step-InBudget q (renews id w d now) v b = elim (Option-cases (lookup id q)) [
    | inl e ↦ rw (e, step) b
    | inr (t, e) ↦
        rw (e, step)
          (All-insert InBudget id _ q
            (acquire_lease-InBudget w d now t (All-lookup InBudget id t q e b)) b)
  ]

  run-InBudget :
      (q : Queue P) (cs : List (Call P)) → IsValid q → AllInBudget q → AllInBudget (run q cs)
  unfolding run
  run-InBudget q [] v b = b
  run-InBudget q (c ∷ cs) v b =
      run-InBudget (step q c) cs (step-IsValid q c v) (step-InBudget q c v b)

  -- After any history of calls, each stored task that is pending has never been tried or has been tried
  -- fewer times than its maximum of attempts, and each dead letter has been tried as many times at least.
  pub run-empty-InBudget : (cs : List (Call P)) → All InBudget (values (run [] cs))
  run-empty-InBudget cs = run-InBudget [] cs (record { distinct = tt; tasks = tt }) tt

  -- A completed or dead task, which has no owner, is out of reach of every worker that gives its name:
  -- it cannot be renewed, completed or failed.
  terminal_unreachable :
      (q : Queue P) (t : TaskRecord P) (w err : String) (d now : ℕ)
      → lookup t.id q ≡ some t
      → IsTerminal t.state
      → t.lease_owner ≡ none
      → ((renew_lease t.id w d now q).0 ≡ false)
        × (complete t.id (some w) now q ≡ q)
        × (fail t.id err (some w) q ≡ q)
  unfolding complete fail renew_lease renew_found acquire_lease
  terminal_unreachable q t w err d now f terminal o = ground (arith, f, o)

  -- Without a worker's name `fail` asks for no lease: a completed task with attempts left is pending
  -- again, and will be run once more.
  fail_reopens_completed :
      (q : Queue P) (t : TaskRecord P) (err : String)
      → lookup t.id q ≡ some t
      → t.state ≡ completed
      → leb_ℤ t.max_attempts (pos t.attempts) ≡ false
      → (t' : TaskRecord P) × (lookup t.id (fail t.id err none q) ≡ some t')
        × (t'.state ≡ pending)
        × (t'.completed_at ≡ t.completed_at)
  unfolding fail fail_task
  fail_reopens_completed q t err f s left = (
    fail_task err t,
    ground (arith, f, lookup-insert_self t.id (fail_task err t) q),
    ground arith,
    refl,
  )

  -- Workers take the task one after the other, each when the lease before has run out, and none of
  -- them ever reports.
  abbrev renewed : String → ℕ → TaskRecord P → TaskRecord P
  renewed w d t = (acquire_lease w d (expiry t.lease_expires_at) t).1

  pub abandon : ℕ → String → ℕ → TaskRecord P → TaskRecord P
  abandon zero w d t = t
  abandon (suc n) w d t = abandon n w d (renewed w d t)

  renewed_lem :
      (w : String) (d e : ℕ) (t : TaskRecord P)
      → t.state ≡ leased
      → t.lease_expires_at ≡ some e
      → ((renewed w d t).state ≡ leased)
        × ((renewed w d t).lease_expires_at ≡ some (e + max 100 d))
        × ((renewed w d t).attempts ≡ t.attempts + 1)
        × ((renewed w d t).max_attempts ≡ t.max_attempts)
  unfolding acquire_lease
  renewed_lem w d e t s x = ground arith

  -- Such a task is never a dead letter: after any number of abandoned leases it is leased again, with
  -- that many more attempts, whatever its maximum is.
  abandon-attempts :
      (n : ℕ) (w : String) (d e : ℕ) (t : TaskRecord P)
      → t.state ≡ leased
      → t.lease_expires_at ≡ some e
      → ((abandon n w d t).state ≡ leased)
        × ((abandon n w d t).attempts ≡ t.attempts + n)
        × ((abandon n w d t).max_attempts ≡ t.max_attempts)
  unfolding abandon
  abandon-attempts zero w d e t s x = (s, omega arith, refl)
  abandon-attempts (suc n) w d e t s x =
      ground
        (arith, renewed_lem w d e t s x, abandon-attempts n w d (e + max 100 d) (renewed w d t))
