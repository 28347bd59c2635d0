-- ===== src/Flow/Runner/Publishing.antt =====
-- Which events a call of the runner publishes, and what its result says of the steps.
use hexastack.Base.{ℕ, String, Bool, Option, some, List, [], ◌∷◌, ◌++◌, ◌≡◌, refl, ap, sym, ◌∙◌}
use mathlib.Core.List.{append_assoc, append-nil}
use hexastack.Base.Outcome.{Exn, Done, returned}
use hexastack.Dict.{Dict}
use hexastack.Flow.Runner.{
  WorkflowExecutionState, WorkflowEvent, started_event, aborted_event, Engine, Runner, to_result,
  terminal_events, and_then, publish_all, conclude, execute, resume, abort, rewind, simulate,
}

-- A bus that writes its events down in the world's log.
module _ {V : Type 0} where
  abbrev pub log_event : WorkflowEvent → List WorkflowEvent × V → Done × (List WorkflowEvent × V)
  log_event e (log, v) = (returned tt, (log ++ e ∷ [], v))

  publish_all-log :
      (es log : List WorkflowEvent) (v : V)
      → publish_all (some log_event) es (log, v) ≡ (returned tt, (log ++ es, v))
  unfolding publish_all and_then
  publish_all-log [] log v = ap (λ l. (returned tt, (l, v))) (sym (append-nil log))
  publish_all-log (e ∷ es) log v =
      publish_all-log es (log ++ e ∷ []) v
      ∙ ap (λ l. (returned tt, (l, v))) (append_assoc log (e ∷ []) es)

module _ {D P V : Type 0} (engine : Engine D P (List WorkflowEvent × V)) where
  abbrev pub logging : Runner D P (List WorkflowEvent × V)
  logging = record { engine = engine; event_bus = some log_event }

  conclude-log :
      (events : WorkflowExecutionState P → List WorkflowEvent) (now : ℕ)
      (s : WorkflowExecutionState P) (log : List WorkflowEvent) (v : V)
      → conclude logging events now (returned s, (log, v))
        ≡ (returned (to_result now s), (log ++ events s, v))
  unfolding conclude and_then
  conclude-log events now s log v = rw (publish_all-log (events s) log v) refl

  -- Where the engine returns a state, the runner returns its result, and publishes after what the engine
  -- did: the start and the terminal event for a new run, the terminal event for a run that is resumed or
  -- rewound, the abortion for one that is aborted, and nothing for a simulation.
  runs-publish :
      (workflow : D) (inputs : P) (run_id step reason : String) (skip : List String) (unsafe : Bool)
      (faults : Option (Dict String Exn)) (start now later : ℕ) (w w' : List WorkflowEvent × V)
      (s : WorkflowExecutionState P)
      → (engine.run workflow inputs w ≡ (returned s, w')
          → execute logging workflow inputs start now later w ≡ (
            returned (to_result later s),
            (w'.0 ++ started_event s.run_id s.workflow_name start ∷ terminal_events now s, w'.1),
          ))
        × (engine.resume run_id workflow inputs w ≡ (returned s, w')
            → resume logging run_id workflow inputs now later w
              ≡ (returned (to_result later s), (w'.0 ++ terminal_events now s, w'.1)))
        × (engine.rewind run_id workflow step inputs skip w ≡ (returned s, w')
            → rewind logging run_id workflow step inputs skip now later w
              ≡ (returned (to_result later s), (w'.0 ++ terminal_events now s, w'.1)))
        × (engine.abort run_id workflow w ≡ (returned s, w')
            → abort logging run_id workflow reason now later w ≡ (
              returned (to_result later s),
              (w'.0 ++ aborted_event s.run_id s.workflow_name reason now ∷ [], w'.1),
            ))
        × (engine.dry_run workflow inputs unsafe faults w ≡ (returned s, w')
            → simulate logging workflow inputs unsafe faults later w
              ≡ (returned (to_result later s), w'))
  unfolding execute resume rewind abort simulate
  runs-publish workflow inputs run_id step reason skip unsafe faults start now later w w' s = (
    (λ e. rw e (
        conclude-log (λ s. started_event s.run_id s.workflow_name start ∷ terminal_events now s)
          later s w'.0 w'.1)),
    (λ e. rw e (conclude-log (terminal_events now) later s w'.0 w'.1)),
    (λ e. rw e (conclude-log (terminal_events now) later s w'.0 w'.1)),
    (λ e. rw e (
        conclude-log (λ s. aborted_event s.run_id s.workflow_name reason now ∷ []) later s w'.0
          w'.1)),
    (λ e. rw e (
        conclude-log (λ s. []) later s w'.0 w'.1
        ∙ ap (λ l. (returned (to_result later s), (l, w'.1))) (append-nil w'.0))),
  )
