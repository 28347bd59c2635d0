-- ===== src/Core/LeaderElection.antt =====
-- packages/hexastack_core/src/hexastack_core/adapters/leader_election/in_memory.py. `W` is what the
-- listeners act on; a listener does not call the election back.
pub mod Notifications
mod Tests
use hexastack.Base.{
  String, Bool, true, false, Option, none, some, List, [], ◌∷◌, ◌++◌, if◌then◌else◌,
}
use hexastack.Base.Outcome.{Outcome, Done, returned, raised, interrupted, ◌>>=◌}

-- A listener is called with `is_leader` and `leader_id`.
abbrev pub Callback : Type 0 → Type 0
Callback W = Bool → Option String → W → Done × W

-- `SingleProcessLeaderElection`
pub record Election (W : Type 0) : Type 0 where
  pub node_id : String
  pub leads : Bool
  pub callbacks : List (Callback W)

module _ {W : Type 0} where
  pub init : String → Election W
  init node_id = record { node_id = node_id; leads = false; callbacks = [] }

  pub is_leader : Election W → Bool
  is_leader e = e.leads

  -- `contextlib.suppress(Exception)` goes on after an exception; nothing else is suppressed.
  and_next : Done × W → (W → Done × W) → Done × W
  and_next (returned u, w) next = next w
  and_next (raised e, w) next = next w
  and_next (interrupted, w) next = (interrupted, w)

  pub notify_callbacks : List (Callback W) → Bool → Option String → W → Done × W
  unfolding and_next
  notify_callbacks [] leads leader_id w = (returned tt, w)
  notify_callbacks (cb ∷ cbs) leads leader_id w =
      and_next (cb leads leader_id w) (notify_callbacks cbs leads leader_id)

  -- The flag is set before the listeners are told, so it stays set when one is interrupted.
  pub acquire_leadership : Election W → W → Outcome Bool × Election W × W
  unfolding notify_callbacks
  acquire_leadership e w =
      if e.leads
      then (returned true, e, w)
      else let (told, w') = notify_callbacks e.callbacks true (some e.node_id) w in
        (told >>= (λ u. returned true), record e { leads = true }, w')

  pub renew_leadership : Election W → Bool
  renew_leadership e = e.leads

  pub step_down : Election W → W → Done × Election W × W
  unfolding notify_callbacks
  step_down e w =
      if e.leads
      then (let (told, w') = notify_callbacks e.callbacks false none w in
          (told, record e { leads = false }, w'))
      else (returned tt, e, w)

  pub get_leader : Election W → Option String
  get_leader e = if e.leads then some e.node_id else none

  pub on_leadership_change : Callback W → Election W → Election W
  on_leadership_change callback e = record e { callbacks = e.callbacks ++ callback ∷ [] }

-- The methods that change the election.
pub data Call (W : Type 0) : Type 0 where
  acquires steps_down : Call W
  registers : Callback W → Call W

module _ {W : Type 0} where
  pub step : Call W → Election W × W → Election W × W
  unfolding acquire_leadership step_down on_leadership_change
  step acquires (e, w) = let (r, e', w') = acquire_leadership e w in (e', w')
  step steps_down (e, w) = let (r, e', w') = step_down e w in (e', w')
  step (registers callback) (e, w) = (on_leadership_change callback e, w)

  pub run : List (Call W) → Election W × W → Election W × W
  unfolding step
  run [] s = s
  run (c ∷ cs) s = run cs (step c s)
