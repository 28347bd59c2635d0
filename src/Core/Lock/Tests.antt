-- ===== src/Core/Lock/Tests.antt =====
-- Runs of the locks, and the theorems at concrete calls.
use hexastack.Base.{◌≡◌, refl, true, false, List, [], ◌∷◌, map, arith}
use hexastack.Base.Outcome.{returned, raised, lock_error}
use hexastack.Core.Lock.{init, acquire, release, locked}
use hexastack.Core.Lock.Reentrant.{
  Call, acquires, releases, asks, acquired, released, is_locked, step, results,
}
use hexastack.Core.Lock.{begin_release, lower, is_last, clear_owner}
use hexastack.Core.Lock.Overlap.{refusal, overlap_strands}

-- Thread 1 nests twice; thread 2 is refused, errs, and gets the lock in the end.
abbrev calls : List Call
calls =
    acquires 1
    ∷ acquires 1
    ∷ acquires 2
    ∷ releases 2
    ∷ releases 1
    ∷ asks 2
    ∷ releases 1
    ∷ acquires 2
    ∷ []

two_threads :
    results step calls init
    ≡ acquired true
      ∷ acquired true
      ∷ acquired false
      ∷ released (raised lock_error)
      ∷ released (returned tt)
      ∷ is_locked true
      ∷ released (returned tt)
      ∷ acquired true
      ∷ []
unfolding results step acquire release locked init
two_threads = refl

-- Thread 2 acquires the lock in the middle of the release by thread 1, and cannot give it back.
abbrev hopeless : List Call
hopeless = releases 2 ∷ acquires 1 ∷ acquires 3 ∷ releases 1 ∷ asks 1 ∷ []

overlap_strands_example :
    ((begin_release 1 (acquire 1 init).1).0 ≡ returned tt)
    × (is_last (lower (begin_release 1 (acquire 1 init).1).1) ≡ true)
    × ((acquire 2 (lower (begin_release 1 (acquire 1 init).1).1)).0 ≡ true)
    × (results step hopeless
          (clear_owner (acquire 2 (lower (begin_release 1 (acquire 1 init).1).1)).1)
        ≡ map refusal hopeless)
overlap_strands_example =
    overlap_strands 1 2 hopeless (tt, (omega arith, (omega arith, (tt, (tt, tt)))))
