-- ===== src/Core/Lock/Nested.antt =====
-- Nested use of the lock of threads: others are kept out until the last hold is given back.
use hexastack.Base.{ℕ, zero, suc, ◌+◌, ◌-◌, ◌≤◌, ◌≡◌, refl, ◌≢◌, true, false, some, arith}
use hexastack.Base.Outcome.{raised, lock_error}
use hexastack.Core.Lock.{Lock, init, acquire, release}
use hexastack.Core.Lock.Reentrant.{lock_of}

-- `n` calls of a method, one after the other.
pub repeat : ℕ → (Lock → Lock) → Lock → Lock
repeat zero f l = l
repeat (suc n) f l = repeat n f (f l)

abbrev pub acquire_times : ℕ → ℕ → Lock → Lock
acquire_times me n l = repeat n (λ l. (acquire me l).1) l

abbrev pub release_times : ℕ → ℕ → Lock → Lock
release_times me n l = repeat n (λ l. (release me l).1) l

acquire_times-held :
    (me n k : ℕ) → acquire_times me n (lock_of (some (me, k))) ≡ lock_of (some (me, k + n))
unfolding repeat acquire
acquire_times-held me zero k = ground arith
acquire_times-held me (suc n) k =
    let next : (acquire me (lock_of (some (me, k)))).1 ≡ lock_of (some (me, suc k)) =
      ground arith in
    let sum : suc k + n ≡ k + suc n = omega arith in
    rw (next, acquire_times-held me n (suc k), sum) refl

release_times-held :
    (me n k : ℕ) → n ≤ k → release_times me n (lock_of (some (me, k))) ≡ lock_of (some (me, k - n))
unfolding repeat release
release_times-held me zero k h = ground arith
release_times-held me (suc n) zero h = absurd (omega arith)
release_times-held me (suc n) (suc k) h =
    let next : (release me (lock_of (some (me, suc k)))).1 ≡ lock_of (some (me, k)) =
      ground arith in
    let le : n ≤ k = omega arith in
    let same : k - n ≡ suc k - suc n = omega arith in
    rw (next, release_times-held me n k le, same) refl

acquire_times-init : (me n : ℕ) → acquire_times me (suc n) init ≡ lock_of (some (me, n))
unfolding repeat acquire init
acquire_times-init me n =
    let first : (acquire me init).1 ≡ lock_of (some (me, 0)) = ground arith in
    let sum : 0 + n ≡ n = omega arith in rw (first, acquire_times-held me n 0, sum) refl

held_excludes :
    (me other k : ℕ)
    → other ≢ me
    → (acquire other (lock_of (some (me, k))) ≡ (false, lock_of (some (me, k))))
      × (release other (lock_of (some (me, k))) ≡ (raised lock_error, lock_of (some (me, k))))
      × ((release me (lock_of (some (me, 0)))).1 ≡ init)
      × ((acquire other init).0 ≡ true)
unfolding acquire release init
held_excludes me other k ne = (ground arith, ground arith, ground arith, ground arith)

-- A thread that has acquired a new lock one or more times and released it fewer times keeps it: another
-- thread neither gets it nor can release it, and the lock stays as it is. Once the releases are as many
-- as the acquisitions, the lock is as new, and any thread gets it.
nested_excludes :
    (me other n m : ℕ)
    → other ≢ me
    → m ≤ n
    → (acquire other (release_times me m (acquire_times me (suc n) init))
        ≡ (false, release_times me m (acquire_times me (suc n) init)))
      × (release other (release_times me m (acquire_times me (suc n) init))
          ≡ (raised lock_error, release_times me m (acquire_times me (suc n) init)))
      × ((release me (release_times me n (acquire_times me (suc n) init))).1 ≡ init)
      × ((acquire other init).0 ≡ true)
nested_excludes me other n m ne le =
    let same : n - n ≡ 0 = omega arith in
    let all : n ≤ n = omega arith in
    rw (acquire_times-init me n, release_times-held me m n le, release_times-held me n n all, same)
      (held_excludes me other (n - m) ne)
