-- ===== src/Events/Tasks/Tests.antt =====
-- Runs of the queue, and the theorems at concrete queues.
use hexastack.Base.{
  ℕ, ◌+◌, ◌≡◌, refl, inl, inr, String, Option, none, some, List, [], ◌∷◌, All, arith,
  String_discrete, max,
}
use hexastack.Base.Int.{pos, negsuc}
use hexastack.Base.Sort.{sort_by}
use hexastack.Dict.{lookup, values, string_key}
use hexastack.Events.Tasks.{
  pending, leased, completed, dead_lettered, TaskRecord, Queue, enqueue, lease_next, fail, Call,
  enqueues, leases, fails, step, run,
}
use hexastack.Events.Tasks.Leases.{IsValid, run-empty-IsValid}
use hexastack.Events.Tasks.Order.{IsFree, InOrder, Takes, lease_next-Takes}
use hexastack.Events.Tasks.Retries.{InBudget, run-empty-InBudget}

abbrev task : TaskRecord ℕ
task = record {
  task_name = "mail";
  payload = 7;
  id = "a";
  state = leased;
  partition_key = none;
  priority = pos 0;
  attempts = 1;
  max_attempts = pos 3;
  lease_owner = some "w1";
  lease_expires_at = some 30000;
  created_at = 10;
  completed_at = none;
  last_error = none;
}

abbrev urgent : TaskRecord ℕ
urgent = record task {
  id = "b";
  state = pending;
  priority = pos 5;
  attempts = 0;
  lease_owner = none;
  lease_expires_at = none;
}

abbrev finished : TaskRecord ℕ
finished = record task {
  id = "c";
  state = completed;
  lease_owner = none;
  lease_expires_at = none;
  completed_at = some 20;
}

abbrev queue : Queue ℕ
queue = ("a", task) ∷ ("b", urgent) ∷ ("c", finished) ∷ []

abbrev history : List (Call ℕ)
history =
    enqueues "x" 1 "mail" 7 none (pos 0) (pos 1)
    ∷ enqueues "y" 2 "mail" 8 none (negsuc 0) (pos 3)
    ∷ leases "w1" none 1000 5 6
    ∷ fails "x" "boom" (some "w1")
    ∷ leases "w2" (some ("mail" ∷ [])) 1000 7 7
    ∷ []

history_states :
    (lookup "x" (run [] history)
      ≡ some (record task {
        id = "x";
        state = dead_lettered;
        max_attempts = pos 1;
        lease_owner = none;
        lease_expires_at = none;
        created_at = 1;
        last_error = some "boom";
      }))
    × (lookup "y" (run [] history)
        ≡ some (record task {
          id = "y";
          payload = 8;
          priority = negsuc 0;
          lease_owner = some "w2";
          lease_expires_at = some 1007;
          created_at = 2;
        }))
unfolding run step enqueue lease_next fail sort_by String_discrete
history_states = (refl, refl)

run-empty-IsValid_example : IsValid (run [] history)
run-empty-IsValid_example = run-empty-IsValid history

queue-IsValid : IsValid queue
unfolding String_discrete
queue-IsValid = record {
  distinct = (refl, (refl, (refl, tt)));
  tasks = (
    record { keyed = refl; in_state = (refl, refl, omega arith) },
    (
      record { keyed = refl; in_state = (refl, refl) },
      (record { keyed = refl; in_state = (refl, refl) }, tt),
    ),
  );
}

abbrev mails : Option (List String)
mails = some ("mail" ∷ [])

lease_next-Takes_example :
    (c : TaskRecord ℕ) × IsFree queue mails 40000 c
    × Takes c "w2" (40001 + max 100 500) (lease_next "w2" mails 500 40000 40001 queue) queue
    × ((y : TaskRecord ℕ) → IsFree queue mails 40000 y → InOrder c y)
lease_next-Takes_example =
    lease_next-Takes queue "w2" mails 500 40000 40001 task queue-IsValid
      (unfold String_discrete in (refl, inl refl, inr (refl, 30000, refl, omega arith)))
      (omega arith)

run-empty-InBudget_example : All InBudget (values (run [] history))
run-empty-InBudget_example = run-empty-InBudget history
