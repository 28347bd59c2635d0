-- ===== src/Core/LeaderElection/Notifications.antt =====
-- What a listener hears: gains and losses of the lead in turn, whatever other listeners raise.
use hexastack.Base.{
  String, Bool, true, false, Option, none, some, List, [], ◌∷◌, ◌++◌, if◌then◌else◌, ◌≡◌, refl, ap,
  sym, not, ◌⊎◌, inl, inr, All, All-append,
}
use mathlib.Core.List.{append_assoc}
use hexastack.Base.Outcome.{returned, raised, Exn}
use hexastack.Core.LeaderElection.{
  Callback, Election, notify_callbacks, and_next, acquire_leadership, step_down,
  on_leadership_change, get_leader, Call, acquires, steps_down, registers, step, run,
}

abbrev pub Notice : Type 0
Notice = Bool × Option String

-- The world is the log of one listener, which appends what it is told.
abbrev pub recorder : Callback (List Notice)
recorder leads leader_id log = (returned tt, log ++ (leads, leader_id) ∷ [])

-- Another listener: it returns or raises an exception, and leaves the log alone.
abbrev pub Quiet : Callback (List Notice) → Type 0
Quiet cb =
    (leads : Bool) (leader_id : Option String) (log : List Notice)
    → (cb leads leader_id log ≡ (returned tt, log))
      ⊎ ((e : Exn) × (cb leads leader_id log ≡ (raised e, log)))

-- What is told when the lead of a node changes to `leads`.
abbrev pub notice : String → Bool → Notice
notice node leads = (leads, if leads then some node else none)

-- The notices are of changes, each from the state that the one before left, from the first state to
-- the last.
pub Alternates : String → Bool → List Notice → Bool → Type 0
Alternates node first [] last = first ≡ last
Alternates node first (n ∷ ns) last =
    (n ≡ notice node (not first)) × Alternates node (not first) ns last

Alternates-append :
    (node : String) (first last : Bool) (ns : List Notice)
    → Alternates node first ns last
    → Alternates node first (ns ++ notice node (not last) ∷ []) (not last)
unfolding Alternates
Alternates-append node first last [] h = (ap (λ b. notice node (not b)) (sym h), ap not h)
Alternates-append node first last (n ∷ ns) h = (h.0, Alternates-append node (not first) last ns h.1)

notify_callbacks-Quiet :
    (cbs : List (Callback (List Notice))) (leads : Bool) (leader_id : Option String)
    (log : List Notice)
    → All Quiet cbs
    → notify_callbacks cbs leads leader_id log ≡ (returned tt, log)
unfolding notify_callbacks and_next
notify_callbacks-Quiet [] leads leader_id log h = refl
notify_callbacks-Quiet (cb ∷ cbs) leads leader_id log h = elim (h.0 leads leader_id log) [
  | inl e ↦ rw e (notify_callbacks-Quiet cbs leads leader_id log h.1)
  | inr (x, e) ↦ rw e (notify_callbacks-Quiet cbs leads leader_id log h.1)
]

notify_callbacks-recorder :
    (cbs cbs' : List (Callback (List Notice))) (leads : Bool) (leader_id : Option String)
    (log : List Notice)
    → All Quiet cbs
    → All Quiet cbs'
    → notify_callbacks (cbs ++ recorder ∷ cbs') leads leader_id log
      ≡ (returned tt, log ++ (leads, leader_id) ∷ [])
unfolding notify_callbacks and_next
notify_callbacks-recorder [] cbs' leads leader_id log h h' =
    notify_callbacks-Quiet cbs' leads leader_id (log ++ (leads, leader_id) ∷ []) h'
notify_callbacks-recorder (cb ∷ cbs) cbs' leads leader_id log h h' =
    elim (h.0 leads leader_id log) [
      | inl e ↦ rw e (notify_callbacks-recorder cbs cbs' leads leader_id log h.1 h')
      | inr (x, e) ↦ rw e (notify_callbacks-recorder cbs cbs' leads leader_id log h.1 h')
    ]

-- An election of a node whose listeners are the recorder and the given ones around it.
abbrev pub election :
    String
    → Bool
    → List (Callback (List Notice))
    → List (Callback (List Notice))
    → Election (List Notice)
election node leads cbs cbs' = record {
  node_id = node;
  leads = leads;
  callbacks = cbs ++ recorder ∷ cbs';
}

-- A call does not register the recorder once more: what it registers is another listener.
abbrev pub QuietCall : Call (List Notice) → Type 0
QuietCall acquires = Unit
QuietCall steps_down = Unit
QuietCall (registers cb) = Quiet cb

-- The election, with some listeners after the recorder, and the log that fits its state.
record Told (node : String) (cbs : List (Callback (List Notice)))
    (s : Election (List Notice) × List Notice) : Type 0 where
  leads : Bool
  later : List (Callback (List Notice))
  log : List Notice
  quiet : All Quiet later
  state : s ≡ (election node leads cbs later, log)
  alternates : Alternates node false log leads

step-Told :
    (c : Call (List Notice)) (node : String) (leads : Bool)
    (cbs cbs' : List (Callback (List Notice))) (log : List Notice)
    → QuietCall c
    → All Quiet cbs
    → All Quiet cbs'
    → Alternates node false log leads
    → Told node cbs (step c (election node leads cbs cbs', log))
unfolding step acquire_leadership step_down on_leadership_change
step-Told acquires node true cbs cbs' log q h h' a = record {
  leads = true;
  later = cbs';
  log = log;
  quiet = h';
  state = refl;
  alternates = a;
}
step-Told acquires node false cbs cbs' log q h h' a = record {
  leads = true;
  later = cbs';
  log = log ++ notice node true ∷ [];
  quiet = h';
  state = rw (notify_callbacks-recorder cbs cbs' true (some node) log h h') refl;
  alternates = Alternates-append node false false log a;
}
step-Told steps_down node false cbs cbs' log q h h' a = record {
  leads = false;
  later = cbs';
  log = log;
  quiet = h';
  state = refl;
  alternates = a;
}
step-Told steps_down node true cbs cbs' log q h h' a = record {
  leads = false;
  later = cbs';
  log = log ++ notice node false ∷ [];
  quiet = h';
  state = rw (notify_callbacks-recorder cbs cbs' false none log h h') refl;
  alternates = Alternates-append node false true log a;
}
step-Told (registers cb) node leads cbs cbs' log q h h' a = record {
  leads = leads;
  later = cbs' ++ cb ∷ [];
  log = log;
  quiet = All-append Quiet cbs' (cb ∷ []) h' (q, tt);
  state =
      ap (λ l. (record { node_id = node; leads = leads; callbacks = l }, log))
        (append_assoc cbs (recorder ∷ cbs') (cb ∷ []));
  alternates = a;
}

run-Told :
    (cs : List (Call (List Notice))) (node : String) (leads : Bool)
    (cbs cbs' : List (Callback (List Notice))) (log : List Notice)
    → All QuietCall cs
    → All Quiet cbs
    → All Quiet cbs'
    → Alternates node false log leads
    → Told node cbs (run cs (election node leads cbs cbs', log))
unfolding run
run-Told [] node leads cbs cbs' log q h h' a = record {
  leads = leads;
  later = cbs';
  log = log;
  quiet = h';
  state = refl;
  alternates = a;
}
run-Told (c ∷ cs) node leads cbs cbs' log q h h' a =
    let t = step-Told c node leads cbs cbs' log q.0 h h' a in
    rw t.state (run-Told cs node t.leads cbs t.later t.log q.1 h t.quiet t.alternates)

-- On an election that does not lead, a listener is registered among others, and the others, those
-- registered later too, return or raise exceptions and leave the listener's log alone. After any calls of
-- `acquire_leadership`, `step_down` and `on_leadership_change`, of which none registers the listener once
-- more, it has heard gains and losses of the lead in turn, each with the right leader, and the last that it
-- heard is the state that `get_leader` reports.
pub run-Alternates :
    (cs : List (Call (List Notice))) (node : String) (cbs cbs' : List (Callback (List Notice)))
    → All QuietCall cs
    → All Quiet cbs
    → All Quiet cbs'
    → (leads : Bool) × Alternates node false (run cs (election node false cbs cbs', [])).1 leads
      × (get_leader (run cs (election node false cbs cbs', [])).0 ≡ (notice node leads).1)
unfolding get_leader Alternates
run-Alternates cs node cbs cbs' q h h' =
    let t = run-Told cs node false cbs cbs' [] q h h' refl in
    (t.leads, rw t.state t.alternates, rw t.state refl)
