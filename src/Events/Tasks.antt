-- ===== src/Events/Tasks.antt =====
-- packages/hexastack_events/src/hexastack_events/domain/tasks.py and adapters/tasks/in_memory.py.
-- Times are whole milliseconds, read by the caller and passed in; `P` is the type of payloads, which
-- the queue never looks at. A method runs under the lock, so it is one step.
pub mod Leases
pub mod Order
pub mod Retries
mod Tests
use hexastack.Base.{
  ℕ, suc, ◌+◌, String, Bool, true, false, Option, none, some, List, [], ◌∷◌, leb, ltb, max,
  if◌then◌else◌, keep, ◌||◌, ◌&&◌, not, String_discrete,
}
use hexastack.Base.Int.{ℤ, pos, leb_ℤ, ltb_ℤ}
use hexastack.Base.Sort.{sort_by}
use hexastack.Dict.{Dict, lookup, insert, values, string_key}

pub data TaskState : Type 0 where
  pending leased completed failed dead_lettered : TaskState

pub record TaskRecord (P : Type 0) : Type 0 where
  pub task_name : String
  pub payload : P
  pub id : String
  pub state : TaskState
  pub partition_key : Option String
  pub priority : ℤ
  pub attempts : ℕ
  pub max_attempts : ℤ
  pub lease_owner : Option String
  pub lease_expires_at : Option ℕ
  pub created_at : ℕ
  pub completed_at : Option ℕ
  pub last_error : Option String

abbrev pub str_eq : String → String → Bool
str_eq a b = elim (String_discrete a b) [ yes p ↦ true | no p ↦ false ]

abbrev pub is_leased : TaskState → Bool
is_leased leased = true
is_leased _ = false

abbrev pub is_pending : TaskState → Bool
is_pending pending = true
is_pending _ = false

-- `owner == w` for an owner that may be `None`.
abbrev pub owned_by : String → Option String → Bool
owned_by w none = false
owned_by w (some o) = str_eq o w

abbrev expired_at : ℕ → Option ℕ → Bool
expired_at now none = false
expired_at now (some e) = leb e now

module _ {P : Type 0} where
  abbrev pub is_lease_expired : ℕ → TaskRecord P → Bool
  is_lease_expired now t = is_leased t.state && expired_at now t.lease_expires_at

  pub acquire_lease : String → ℕ → ℕ → TaskRecord P → Bool × TaskRecord P
  acquire_lease owner duration now t =
      if is_pending t.state || is_lease_expired now t
      then (
        true,
        record t {
          state = leased;
          lease_owner = some owner;
          lease_expires_at = some (now + max 100 duration);
          attempts = t.attempts + 1;
        },
      )
      else if is_leased t.state && owned_by owner t.lease_owner
      then (true, record t { lease_expires_at = some (now + max 100 duration) })
      else (false, t)

  -- `TaskRecord.complete` and `TaskRecord.fail`
  pub complete_task : ℕ → TaskRecord P → TaskRecord P
  complete_task now t = record t {
    state = completed;
    completed_at = some now;
    lease_owner = none;
    lease_expires_at = none;
  }

  pub fail_task : String → TaskRecord P → TaskRecord P
  fail_task error t = record t {
    last_error = some error;
    lease_owner = none;
    lease_expires_at = none;
    state = if leb_ℤ t.max_attempts (pos t.attempts) then dead_lettered else pending;
  }

-- `_tasks` of `InMemoryTaskQueueAdapter`. A record that is changed in place is written back.
abbrev pub Queue : Type 0 → Type 0
Queue P = Dict String (TaskRecord P)

-- `s in names`
abbrev mem_str : String → List String → Bool
mem_str s [] = false
mem_str s (t ∷ ts) = str_eq t s || mem_str s ts

module _ {P : Type 0} where
  -- `id` and `now` are the defaults of the record's fields, a fresh UUID and the time.
  pub enqueue : String → ℕ → String → P → Option String → ℤ → ℤ → Queue P → TaskRecord P × Queue P
  enqueue id now task_name payload partition_key priority max_attempts q = (task, insert id task q)
    where
      task : TaskRecord P
      task = record {
        task_name = task_name;
        payload = payload;
        id = id;
        state = pending;
        partition_key = partition_key;
        priority = priority;
        attempts = 0;
        max_attempts = max_attempts;
        lease_owner = none;
        lease_expires_at = none;
        created_at = now;
        completed_at = none;
        last_error = none;
      }

  abbrev pub name_matches : Option (List String) → TaskRecord P → Bool
  name_matches none t = true
  name_matches (some names) t = mem_str t.task_name names

  -- The test that makes a task a candidate.
  abbrev pub is_available : Option (List String) → ℕ → TaskRecord P → Bool
  is_available names now t = name_matches names t && (is_pending t.state || is_lease_expired now t)

  abbrev pub candidates : Option (List String) → ℕ → Queue P → List (TaskRecord P)
  candidates names now q = keep (is_available names now) (values q)

  -- `key(a) < key(b)` for the sort key `(-priority, created_at)`.
  abbrev pub before : TaskRecord P → TaskRecord P → Bool
  before a b =
      ltb_ℤ b.priority a.priority
      || (not (ltb_ℤ a.priority b.priority) && ltb a.created_at b.created_at)

  lease_first : String → ℕ → ℕ → List (TaskRecord P) → Queue P → Option (TaskRecord P) × Queue P
  unfolding acquire_lease
  lease_first worker duration later [] q = (none, q)
  lease_first worker duration later (t ∷ ts) q =
      let (granted, t') = acquire_lease worker duration later t in
      (if granted then some t' else none, insert t.id t' q)

  -- The clock is read for the candidates, `now`, and again by `acquire_lease`, `later`.
  pub lease_next :
      String → Option (List String) → ℕ → ℕ → ℕ → Queue P → Option (TaskRecord P) × Queue P
  unfolding lease_first
  lease_next worker names duration now later q =
      lease_first worker duration later (sort_by before (candidates names now q)) q

  -- `worker_id is not None and (lease_owner is None or lease_owner != worker_id)`
  abbrev pub not_owner : Option String → TaskRecord P → Bool
  not_owner none t = false
  not_owner (some w) t = not (owned_by w t.lease_owner)

  -- `complete` and `fail` change the task unless it is unknown or another worker's.
  abbrev update_owned :
      Option (TaskRecord P)
      → Option String
      → (TaskRecord P → TaskRecord P)
      → String
      → Queue P
      → Queue P
  update_owned none worker f id q = q
  update_owned (some t) worker f id q = if not_owner worker t then q else insert id (f t) q

  pub complete : String → Option String → ℕ → Queue P → Queue P
  unfolding complete_task
  complete id worker now q = update_owned (lookup id q) worker (complete_task now) id q

  pub fail : String → String → Option String → Queue P → Queue P
  unfolding fail_task
  fail id error worker q = update_owned (lookup id q) worker (fail_task error) id q

  renew_found : Option (TaskRecord P) → String → String → ℕ → ℕ → Queue P → Bool × Queue P
  unfolding acquire_lease
  renew_found none id worker duration now q = (false, q)
  renew_found (some t) id worker duration now q =
      let (granted, t') = acquire_lease worker duration now t in (granted, insert id t' q)

  pub renew_lease : String → String → ℕ → ℕ → Queue P → Bool × Queue P
  unfolding renew_found
  renew_lease id worker duration now q = renew_found (lookup id q) id worker duration now q

-- The methods as data, to speak of any history of calls.
pub data Call (P : Type 0) : Type 0 where
  enqueues : String → ℕ → String → P → Option String → ℤ → ℤ → Call P
  leases : String → Option (List String) → ℕ → ℕ → ℕ → Call P
  completes : String → Option String → ℕ → Call P
  fails : String → String → Option String → Call P
  renews : String → String → ℕ → ℕ → Call P

module _ {P : Type 0} where
  pub step : Queue P → Call P → Queue P
  unfolding enqueue lease_next complete fail renew_lease
  step q (enqueues id now name p key prio most) = (enqueue id now name p key prio most q).1
  step q (leases w names d now later) = (lease_next w names d now later q).1
  step q (completes id w now) = complete id w now q
  step q (fails id e w) = fail id e w q
  step q (renews id w d now) = (renew_lease id w d now q).1

  pub run : Queue P → List (Call P) → Queue P
  unfolding step
  run q [] = q
  run q (c ∷ cs) = run (step q c) cs
