-- ===== src/Cqrs/Buses/Subscribers.antt =====
-- Who hears an event.
use hexastack.Base.{List, [], ◌∷◌, ◌++◌, ◌≡◌, refl}
use hexastack.Base.Outcome.{Outcome, returned, raised, interrupted, Done}
use hexastack.Core.Registry.{Handler}
use hexastack.Cqrs.Buses.{Middleware, layered, next_handler, publish_each}

next_handler_assoc :
    {A W : Type 0} (r : Outcome A × W) (f g k : W → Done × W)
    → ((w : W) → k w ≡ next_handler (f w) g)
    → next_handler r k ≡ next_handler (next_handler r f) g
unfolding next_handler
next_handler_assoc (returned a, w) f g k h = h w
next_handler_assoc (raised e, w) f g k h = refl
next_handler_assoc (interrupted, w) f g k h = refl

module _ {M A W : Type 0} where
  -- Handlers that follow others are called if all of those return, on what they leave; an exception of
  -- one of those ends the call with it and keeps every handler that follows from being called.
  publish_each-append :
      (ms : List (Middleware M A W)) (hs gs : List (Handler M A W)) (event : M) (w : W)
      → publish_each ms (hs ++ gs) event w
        ≡ next_handler (publish_each ms hs event w) (publish_each ms gs event)
  unfolding publish_each next_handler
  publish_each-append ms [] gs event w = refl
  publish_each-append ms (h ∷ hs) gs event w =
      next_handler_assoc (layered ms h event w) (publish_each ms hs event)
        (publish_each ms gs event) (publish_each ms (hs ++ gs) event)
        (λ w'. publish_each-append ms hs gs event w')
