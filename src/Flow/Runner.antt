-- ===== src/Flow/Runner.antt =====
-- packages/hexastack_flow/src/hexastack_flow/adapters/cqrs/runner.py, domain/models.py and domain/events.py.
-- The engine is a library that the source calls: its methods are functions on `W`, which the event bus
-- acts on too. `D` is the type of workflow definitions and `P` of inputs and outputs. Times are passed in.
pub mod Publishing
mod Tests
use hexastack.Base.{
  ℕ, String, Bool, true, false, Option, none, some, List, [], ◌∷◌, length, if◌then◌else◌,
}
use hexastack.Base.Outcome.{Exn, Outcome, returned, raised, interrupted, Done}
use hexastack.Dict.{Dict, string_key}
use hexastack.Core.Registry.{Action}

-- The statuses of the engine that the runner tells apart, and the others by their values.
pub data WorkflowStatus : Type 0 where
  completed suspended : WorkflowStatus
  other_status : String → WorkflowStatus

pub data StepStatus : Type 0 where
  step_completed step_failed step_other : StepStatus

pub record Checkpoint (P : Type 0) : Type 0 where
  pub status : StepStatus
  pub output_payload : Option P

-- What the runner reads of the engine's `WorkflowExecutionState`.
pub record WorkflowExecutionState (P : Type 0) : Type 0 where
  pub run_id : String
  pub workflow_name : String
  pub status : WorkflowStatus
  pub step_checkpoints : Dict String (Checkpoint P)
  pub current_stage : Option String
  pub started_at : ℕ
  pub finished_at : Option ℕ
  pub error_summary : Option String

pub data WorkflowEvent : Type 0 where
  started_event : String → String → ℕ → WorkflowEvent
  completed_event : String → String → ℕ → ℕ → WorkflowEvent
  suspended_event : String → String → String → String → String → WorkflowEvent
  aborted_event : String → String → String → ℕ → WorkflowEvent

pub record WorkflowExecutionResult (P : Type 0) : Type 0 where
  pub run_id : String
  pub workflow_name : String
  pub status : WorkflowStatus
  pub completed_steps : List String
  pub failed_steps : List String
  pub outputs : Dict String P
  pub started_at : ℕ
  pub ended_at : ℕ
  pub error_summary : Option String

-- `run` takes the inputs; `dry_run` is `run` with `dry_run=True`, whether unsafe steps are run, and the
-- faults to inject. `resume` takes the patch, `rewind` the step and the steps to skip as well.
pub record Engine (D P W : Type 0) : Type 0 where
  pub run : D → P → Action W (WorkflowExecutionState P)
  pub dry_run : D → P → Bool → Option (Dict String Exn) → Action W (WorkflowExecutionState P)
  pub resume : String → D → P → Action W (WorkflowExecutionState P)
  pub abort : String → D → Action W (WorkflowExecutionState P)
  pub rewind : String → D → String → P → List String → Action W (WorkflowExecutionState P)

pub record Runner (D P W : Type 0) : Type 0 where
  pub engine : Engine D P W
  pub event_bus : Option (WorkflowEvent → W → Done × W)

-- `value or default` for a text, of which the empty one is false, and for a time.
abbrev or_text : String → Option String → String
or_text default none = default
or_text default (some String.[]) = default
or_text default (some (String.◌∷◌ c s)) = String.◌∷◌ c s

abbrev or_time : ℕ → Option ℕ → ℕ
or_time default none = default
or_time default (some t) = t

abbrev is_failed : StepStatus → Bool
is_failed step_failed = true
is_failed step_completed = false
is_failed step_other = false

abbrev is_completed : StepStatus → Bool
is_completed step_completed = true
is_completed step_failed = false
is_completed step_other = false

first_or_unknown : List String → String
first_or_unknown [] = "unknown"
first_or_unknown (name ∷ names) = name

module _ {P : Type 0} where
  -- The names of the checkpoints whose status passes the test.
  pub names_where : (StepStatus → Bool) → Dict String (Checkpoint P) → List String
  names_where test [] = []
  names_where test ((name, chk) ∷ cs) =
      let rest = names_where test cs in if test chk.status then name ∷ rest else rest

  with_output : String → Option P → Dict String P → Dict String P
  with_output name none rest = rest
  with_output name (some v) rest = (name, v) ∷ rest

  pub outputs_of : Dict String (Checkpoint P) → Dict String P
  unfolding with_output
  outputs_of [] = []
  outputs_of ((name, chk) ∷ cs) = with_output name chk.output_payload (outputs_of cs)

  -- `_to_result`
  pub to_result : ℕ → WorkflowExecutionState P → WorkflowExecutionResult P
  unfolding names_where outputs_of
  to_result now state = record {
    run_id = state.run_id;
    workflow_name = state.workflow_name;
    status = state.status;
    completed_steps = names_where is_completed state.step_checkpoints;
    failed_steps = names_where is_failed state.step_checkpoints;
    outputs = outputs_of state.step_checkpoints;
    started_at = state.started_at;
    ended_at = or_time now state.finished_at;
    error_summary = state.error_summary;
  }

  terminal_in : WorkflowStatus → ℕ → WorkflowExecutionState P → List WorkflowEvent
  unfolding names_where first_or_unknown
  terminal_in completed now state =
      completed_event state.run_id state.workflow_name (or_time now state.finished_at)
        (length state.step_checkpoints)
      ∷ []
  terminal_in suspended now state =
      suspended_event state.run_id (or_text "unknown" state.current_stage)
        (first_or_unknown (names_where is_failed state.step_checkpoints)) "StepExecutionError"
        (or_text "Step failed and exhausted retries." state.error_summary)
      ∷ []
  terminal_in (other_status v) now state = []

  -- The events of `_emit_terminal_events`.
  pub terminal_events : ℕ → WorkflowExecutionState P → List WorkflowEvent
  unfolding terminal_in
  terminal_events now state = terminal_in state.status now state

module _ {W : Type 0} where
  and_then : {A : Type 0} → Done × W → (W → Outcome A × W) → Outcome A × W
  and_then (returned u, w) next = next w
  and_then (raised e, w) next = (raised e, w)
  and_then (interrupted, w) next = (interrupted, w)

  -- One `publish` after the other, if there is a bus.
  pub publish_all : Option (WorkflowEvent → W → Done × W) → List WorkflowEvent → W → Done × W
  unfolding and_then
  publish_all none events w = (returned tt, w)
  publish_all (some publish) [] w = (returned tt, w)
  publish_all (some publish) (e ∷ es) w = and_then (publish e w) (publish_all (some publish) es)

module _ {D P W : Type 0} (runner : Runner D P W) where
  -- What follows a call of the engine: the events of the state, and the result, for which the clock is
  -- read again, `later`.
  conclude :
      (WorkflowExecutionState P → List WorkflowEvent)
      → ℕ
      → Outcome (WorkflowExecutionState P) × W
      → Outcome (WorkflowExecutionResult P) × W
  unfolding publish_all to_result and_then
  conclude events later (returned state, w) =
      and_then (publish_all runner.event_bus (events state) w)
        (λ w'. (returned (to_result later state), w'))
  conclude events later (raised e, w) = (raised e, w)
  conclude events later (interrupted, w) = (interrupted, w)

  -- `start_time` is read before the engine runs, `now` for the events.
  pub execute : D → P → ℕ → ℕ → ℕ → Action W (WorkflowExecutionResult P)
  unfolding conclude terminal_events
  execute workflow inputs start_time now later w =
      conclude (λ s. started_event s.run_id s.workflow_name start_time ∷ terminal_events now s)
        later (runner.engine.run workflow inputs w)

  pub resume : String → D → P → ℕ → ℕ → Action W (WorkflowExecutionResult P)
  unfolding conclude terminal_events
  resume run_id workflow patch now later w =
      conclude (terminal_events now) later (runner.engine.resume run_id workflow patch w)

  pub abort : String → D → String → ℕ → ℕ → Action W (WorkflowExecutionResult P)
  unfolding conclude
  abort run_id workflow reason now later w =
      conclude (λ s. aborted_event s.run_id s.workflow_name reason now ∷ []) later
        (runner.engine.abort run_id workflow w)

  pub rewind : String → D → String → P → List String → ℕ → ℕ → Action W (WorkflowExecutionResult P)
  unfolding conclude terminal_events
  rewind run_id workflow to_step patch skip_steps now later w =
      conclude (terminal_events now) later
        (runner.engine.rewind run_id workflow to_step patch skip_steps w)

  pub simulate : D → P → Bool → Option (Dict String Exn) → ℕ → Action W (WorkflowExecutionResult P)
  unfolding conclude
  simulate workflow inputs allow_unsafe fault_injection later w =
      conclude (λ s. []) later
        (runner.engine.dry_run workflow inputs allow_unsafe fault_injection w)
