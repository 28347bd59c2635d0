-- ===== src/Core/LeaderElection/Tests.antt =====
-- A run of the election, and the theorem at concrete listeners.
use hexastack.Base.{Bool, true, false, some, none, List, [], ◌∷◌, ◌≡◌, refl, inl, inr}
use hexastack.Base.Outcome.{returned, raised, other}
use hexastack.Core.LeaderElection.{
  Call, Callback, acquires, steps_down, registers, run, step, acquire_leadership, step_down,
  on_leadership_change, notify_callbacks, and_next, get_leader,
}
use hexastack.Core.LeaderElection.Notifications.{
  Notice, Quiet, Alternates, notice, election, run-Alternates,
}

abbrev failing : Callback (List Notice)
failing leads leader_id log = (raised (other 3), log)

abbrev silent : Callback (List Notice)
silent leads leader_id log = (returned tt, log)

abbrev calls : List (Call (List Notice))
calls = acquires ∷ acquires ∷ registers failing ∷ steps_down ∷ acquires ∷ []

notices_heard :
    (run calls (election "n1" false (failing ∷ []) (silent ∷ []), [])).1
    ≡ (true, some "n1") ∷ (false, none) ∷ (true, some "n1") ∷ []
unfolding run step acquire_leadership step_down on_leadership_change notify_callbacks and_next
notices_heard = refl

failing-Quiet : Quiet failing
failing-Quiet leads leader_id log = inr (other 3, refl)

silent-Quiet : Quiet silent
silent-Quiet leads leader_id log = inl refl

run-Alternates_example :
    (leads : Bool) × Alternates "n1" false
      (run calls (election "n1" false (failing ∷ []) (silent ∷ []), [])).1
      leads
    × (get_leader (run calls (election "n1" false (failing ∷ []) (silent ∷ []), [])).0
        ≡ (notice "n1" leads).1)
run-Alternates_example =
    run-Alternates calls "n1" (failing ∷ []) (silent ∷ [])
      (tt, (tt, (failing-Quiet, (tt, (tt, tt))))) (failing-Quiet, tt) (silent-Quiet, tt)
