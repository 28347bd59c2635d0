-- ===== src/Flow/Runner/Tests.antt =====
-- A run of the runner on a concrete engine.
use hexastack.Base.{ℕ, none, some, List, [], ◌∷◌, ◌≡◌, refl}
use hexastack.Base.Outcome.{returned}
use hexastack.Flow.Runner.{
  suspended, step_completed, step_failed, WorkflowExecutionState, WorkflowEvent, started_event,
  suspended_event, Engine, to_result, terminal_events, execute,
}
use hexastack.Flow.Runner.Publishing.{logging}

abbrev failed_run : WorkflowExecutionState ℕ
failed_run = record {
  run_id = "r";
  workflow_name = "ship";
  status = suspended;
  step_checkpoints =
      ("pack", record { status = step_completed; output_payload = some 4 })
      ∷ ("send", record { status = step_failed; output_payload = none })
      ∷ [];
  current_stage = some "out";
  started_at = 1;
  finished_at = none;
  error_summary = some "lost";
}

abbrev engine : Engine ℕ ℕ (List WorkflowEvent × ℕ)
engine = record {
  run = λ d i w. (returned failed_run, (w.0, 8));
  dry_run = λ d i unsafe faults w. (returned failed_run, (w.0, 8));
  resume = λ r d i w. (returned failed_run, (w.0, 8));
  abort = λ r d w. (returned failed_run, (w.0, 8));
  rewind = λ r d step i skip w. (returned failed_run, (w.0, 8));
}

suspended_step :
    terminal_events 5 failed_run ≡ suspended_event "r" "out" "send" "StepExecutionError" "lost" ∷ []
unfolding terminal_events
suspended_step = refl

abbrev before : List WorkflowEvent × ℕ
before = ([], 7)

-- The end of the run has no time of its own, so it is the last reading of the clock.
executed : execute (logging engine) 0 3 1 5 6 before ≡ (
  returned (to_result 6 failed_run),
  (
    started_event "r" "ship" 1 ∷ suspended_event "r" "out" "send" "StepExecutionError" "lost" ∷ [],
    8,
  ),
)
unfolding execute
executed = refl
