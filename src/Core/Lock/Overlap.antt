-- ===== src/Core/Lock/Overlap.antt =====
-- A call of `acquire` in the middle of another thread's `release`.
use hexastack.Base.{ℕ, ◌≡◌, refl, ap, ◌≢◌, true, false, List, [], ◌∷◌, none, some, map, arith, All}
use hexastack.Base.Outcome.{returned, raised, lock_error}
use hexastack.Core.Lock.{
  Lock, init, acquire, release, begin_release, lower, is_last, clear_owner, locked,
}
use hexastack.Core.Lock.Reentrant.{
  Call, acquires, releases, asks, Result, acquired, released, is_locked, step, results,
}

-- The lock is held by a thread that is not noted as its owner.
abbrev stranded : ℕ → Lock
stranded other = record {
  lock = record { holder = some other; depth = 1 };
  count = 1;
  owner_thread = none;
}

abbrev pub NoAcquireBy : ℕ → Call → Type 0
NoAcquireBy other (acquires me) = me ≢ other
NoAcquireBy other (releases me) = Unit
NoAcquireBy other (asks me) = Unit

abbrev pub refusal : Call → Result
refusal (acquires me) = acquired false
refusal (releases me) = released (raised lock_error)
refusal (asks me) = is_locked true

step-stranded :
    (other : ℕ) (c : Call)
    → NoAcquireBy other c
    → step c (stranded other) ≡ (refusal c, stranded other)
unfolding step acquire release begin_release locked
step-stranded other (acquires me) h = ground (arith, h)
step-stranded other (releases me) h = ground arith
step-stranded other (asks me) h = refl

results-stranded :
    (other : ℕ) (cs : List Call)
    → All (NoAcquireBy other) cs
    → results step cs (stranded other) ≡ map refusal cs
unfolding results
results-stranded other [] h = refl
results-stranded other (c ∷ cs) h =
    rw (step-stranded other c h.0) (ap (◌∷◌ (refusal c)) (results-stranded other cs h.1))

-- A thread that holds a new lock once has begun to release it, with the inner lock free and the count
-- lowered to zero, when a second thread acquires the lock; then the first one clears the owner. From
-- then on the second thread, which holds the lock, cannot release it, and neither can any other: as long
-- as it does not acquire the lock again, every `release` raises `LockError`, every other thread that tries
-- to acquire the lock fails, and the lock counts as held.
pub overlap_strands :
    (me other : ℕ) (cs : List Call)
    → All (NoAcquireBy other) cs
    → let begun = begin_release me (acquire me init).1 in
      let taken = acquire other (lower begun.1) in
      (begun.0 ≡ returned tt)
      × (is_last (lower begun.1) ≡ true)
      × (taken.0 ≡ true)
      × (results step cs (clear_owner taken.1) ≡ map refusal cs)
unfolding begin_release acquire init lower is_last clear_owner
overlap_strands me other cs h =
    let begun : begin_release me (acquire me init).1 ≡ (
      returned tt,
      record { lock = record { holder = none; depth = 0 }; count = 1; owner_thread = some me },
    ) =
      ground arith in
    rw begun (refl, refl, refl, results-stranded other cs h)
