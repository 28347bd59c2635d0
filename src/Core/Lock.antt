-- ===== src/Core/Lock.antt =====
-- packages/hexastack_core/src/hexastack_core/adapters/lock/in_memory.py. Threads and tasks are numbers.
-- A call of `acquire` is listed where it is decided: a caller that waits for the lock is decided when
-- it gets it or gives up, so its result tells whether the lock was to be had at that moment.
pub mod Reentrant
pub mod Nested
pub mod Overlap
mod Tests
use hexastack.Base.{
  ℕ, suc, ◌+◌, ◌-◌, Bool, true, false, Option, none, some, ltb, if◌then◌else◌, ◌==◌, not, ◌||◌,
  ◌&&◌,
}
use hexastack.Base.Outcome.{Done, returned, raised, interrupted, lock_error, ◌>>=◌}

abbrev pub is_held_by : ℕ → Option ℕ → Bool
is_held_by me none = false
is_held_by me (some o) = o == me

-- Python's `threading.RLock`: its owner, and how many times it holds the lock.
pub record RLock : Type 0 where
  pub holder : Option ℕ
  pub depth : ℕ

abbrev rlock_acquire : ℕ → RLock → Bool × RLock
rlock_acquire me l =
    if is_held_by me l.holder
    then (true, record { holder = some me; depth = l.depth + 1 })
    else if l.depth == 0
    then (true, record { holder = some me; depth = 1 })
    else (false, l)

-- `false` where it raises `RuntimeError`.
abbrev rlock_release : ℕ → RLock → Bool × RLock
rlock_release me l =
    if not (is_held_by me l.holder)
    then (false, l)
    else if l.depth == 1
    then (true, record { holder = none; depth = 0 })
    else (true, record l { depth = l.depth - 1 })

-- `InMemoryLock`
pub record Lock : Type 0 where
  pub lock : RLock
  pub count : ℕ
  pub owner_thread : Option ℕ

pub init : Lock
init = record { lock = record { holder = none; depth = 0 }; count = 0; owner_thread = none }

pub acquire : ℕ → Lock → Bool × Lock
acquire me l =
    let (acquired, inner) = rlock_acquire me l.lock in
    if acquired
    then (true, record { lock = inner; count = l.count + 1; owner_thread = some me })
    else (false, record l { lock = inner })

-- `release` is not one step for other threads, since the inner lock is free before the attributes are
-- written: `begin_release`, `lower`, and, where the test `is_last` then succeeds, `clear_owner`.
pub begin_release : ℕ → Lock → Done × Lock
begin_release me l =
    if l.count == 0 || not (is_held_by me l.owner_thread)
    then (raised lock_error, l)
    else (let (freed, inner) = rlock_release me l.lock in
        (if freed then returned tt else raised lock_error, record l { lock = inner }))

pub lower : Lock → Lock
lower l = record l { count = l.count - 1 }

pub is_last : Lock → Bool
is_last l = l.count == 0

pub clear_owner : Lock → Lock
clear_owner l = record l { owner_thread = none }

end_release : Done × Lock → Done × Lock
unfolding lower is_last clear_owner
end_release (returned u, l) =
    (returned tt, if is_last (lower l) then clear_owner (lower l) else lower l)
end_release (raised e, l) = (raised e, l)
end_release (interrupted, l) = (interrupted, l)

-- The whole method, with no other thread in between.
pub release : ℕ → Lock → Done × Lock
unfolding begin_release end_release
release me l = end_release (begin_release me l)

pub locked : Lock → Bool
locked l = ltb 0 l.count

-- `AsyncInMemoryLock`: `inner_locked` is the state of its `asyncio.Lock`, which is not reentrant.
pub record AsyncLock : Type 0 where
  pub inner_locked : Bool
  pub owner : Option ℕ
  pub holds : ℕ

pub init_async : AsyncLock
init_async = record { inner_locked = false; owner = none; holds = 0 }

pub acquire_async : ℕ → AsyncLock → Bool × AsyncLock
acquire_async me l =
    if is_held_by me l.owner
    then (true, record l { holds = l.holds + 1 })
    else if l.inner_locked
    then (false, l)
    else (true, record { inner_locked = true; owner = some me; holds = 1 })

pub release_async : ℕ → AsyncLock → Done × AsyncLock
release_async me l =
    if not (is_held_by me l.owner) || l.holds == 0
    then (raised lock_error, l)
    else if l.holds - 1 == 0
    then (returned tt, record { inner_locked = false; owner = none; holds = 0 })
    else (returned tt, record l { holds = l.holds - 1 })

pub locked_async : AsyncLock → Bool
locked_async l = ltb 0 l.holds
