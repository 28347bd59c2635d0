-- ===== src/Cqrs/Buses.antt =====
-- packages/hexastack_cqrs/src/hexastack_cqrs/adapters/buses: the synchronous command, query and event bus.
-- `M` is the type of messages, `A` of answers, where `none` is Python's `None`, and `W` is what handlers
-- and middleware act on.
pub mod Onion
pub mod Subscribers
mod Tests
use mathlib.Core.List.{reverse}
use hexastack.Base.{Bool, true, false, Option, none, some, List, [], ◌∷◌, ◌++◌, if◌then◌else◌}
use hexastack.Base.Outcome.{Outcome, returned, raised, interrupted, Done}
use hexastack.Dict.{Dict, Key, lookup, insert}
use hexastack.Core.Registry.{Action, Handler, Registry, handle}

-- A middleware takes the message and the next callable.
abbrev pub Middleware : Type 0 → Type 0 → Type 0 → Type 0
Middleware M A W = M → Handler M A W → Action W (Option A)

module _ {M A W : Type 0} where
  -- The loop over `reversed(self._middleware)`: each one takes the pipeline so far as its next callable.
  pub wrap : List (Middleware M A W) → Handler M A W → Handler M A W
  wrap [] pipeline = pipeline
  wrap (m ∷ ms) pipeline = wrap ms (λ instance_. m instance_ pipeline)

  pub layered : List (Middleware M A W) → Handler M A W → Handler M A W
  unfolding wrap
  layered middleware handler = wrap (reverse middleware) handler

module _ {K M A W : Type 0} ⦃key : Key K⦄ (issubclass : K → K → Bool) (type_of : M → K) where
  -- `SynchronousCommandBus.dispatch`
  pub dispatch_command : Registry K (Handler M A W) → List (Middleware M A W) → Handler M A W
  unfolding layered
  dispatch_command registry middleware command =
      layered middleware (λ i. handle issubclass type_of i false true registry) command

  -- `SynchronousQueryBus.dispatch`
  pub dispatch_query : Registry K (Handler M A W) → List (Middleware M A W) → Handler M A W
  unfolding layered
  dispatch_query registry middleware query =
      layered middleware (λ i. handle issubclass type_of i false true registry) query

-- `_subscribers` of `SynchronousEventBus`.
abbrev pub Subscribers : Type 0 → Type 0 → Type 0
Subscribers K H = Dict K (List H)

module _ {K H : Type 0} ⦃key : Key K⦄ (issubclass : K → K → Bool) where
  pub handlers : K → Subscribers K H → List H
  handlers event_cls [] = []
  handlers event_cls ((registered, hs) ∷ s) =
      (if issubclass event_cls registered then hs else []) ++ handlers event_cls s

module _ {K H : Type 0} ⦃key : Key K⦄ where
  subscribe_to : Option (List H) → K → H → Subscribers K H → Subscribers K H
  subscribe_to none event_cls handler s = insert event_cls (handler ∷ []) s
  subscribe_to (some hs) event_cls handler s = insert event_cls (hs ++ handler ∷ []) s

  pub subscribe : K → H → Subscribers K H → Subscribers K H
  unfolding subscribe_to
  subscribe event_cls handler s = subscribe_to (lookup event_cls s) event_cls handler s

  pub clear : Subscribers K H → Subscribers K H
  clear s = []

module _ {A W : Type 0} where
  -- What follows a call that returned.
  pub next_handler : Outcome A × W → Action W Unit → Done × W
  next_handler (returned a, w) rest = rest w
  next_handler (raised e, w) rest = (raised e, w)
  next_handler (interrupted, w) rest = (interrupted, w)

module _ {M A W : Type 0} where
  -- The loop of `publish`: the answers are dropped, and an exception ends the loop.
  pub publish_each : List (Middleware M A W) → List (Handler M A W) → M → Action W Unit
  unfolding layered next_handler
  publish_each middleware [] event w = (returned tt, w)
  publish_each middleware (h ∷ hs) event w =
      next_handler (layered middleware h event w) (publish_each middleware hs event)

module _ {K M A W : Type 0} ⦃key : Key K⦄ (issubclass : K → K → Bool) (type_of : M → K) where
  pub publish : List (Middleware M A W) → Subscribers K (Handler M A W) → M → Action W Unit
  unfolding publish_each handlers
  publish middleware s event w =
      publish_each middleware (handlers issubclass (type_of event) s) event w
