-- ===== src/Cqrs/Buses/Onion.antt =====
-- The layers of a bus: the first middleware is the outermost.
use mathlib.Core.List.{reverse, reverse-cons}
use hexastack.Base.{Bool, true, false, List, [], ◌∷◌, ◌++◌, ◌≡◌, refl, ap, sym, ◌∙◌}
use hexastack.Dict.{Key}
use hexastack.Core.Registry.{Handler, Registry, handle}
use hexastack.Cqrs.Buses.{Middleware, wrap, layered, dispatch_command, dispatch_query}

module _ {M A W : Type 0} where
  wrap-append :
      (ms ns : List (Middleware M A W)) (h : Handler M A W)
      → wrap (ms ++ ns) h ≡ wrap ns (wrap ms h)
  unfolding wrap
  wrap-append [] ns h = refl
  wrap-append (m ∷ ms) ns h = wrap-append ms ns (λ i. m i h)

  layered-nil : (h : Handler M A W) → layered [] h ≡ h
  unfolding layered wrap
  layered-nil h = refl

  layered-cons :
      (m : Middleware M A W) (ms : List (Middleware M A W)) (h : Handler M A W)
      → layered (m ∷ ms) h ≡ (λ i. m i (layered ms h))
  unfolding layered wrap
  layered-cons m ms h = ap (λ l. wrap l h) (reverse-cons m ms) ∙ wrap-append (reverse ms) (m ∷ []) h

  layered-append :
      (ms ns : List (Middleware M A W)) (h : Handler M A W)
      → layered (ms ++ ns) h ≡ layered ms (layered ns h)
  layered-append [] ns h = sym (layered-nil (layered ns h))
  layered-append (m ∷ ms) ns h =
      layered-cons m (ms ++ ns) h
      ∙ ap (λ n. λ i. m i n) (layered-append ms ns h)
      ∙ sym (layered-cons m ms (layered ns h))

-- A command passes through the middleware in the order of the list: the first one takes it with all the
-- rest as its next callable, and a list of middleware may be split into an outer and an inner part.
-- Queries are dispatched just as commands are.
pub dispatch-layers :
    {K M A W : Type 0} ⦃key : Key K⦄ (issubclass : K → K → Bool) (type_of : M → K)
    (registry : Registry K (Handler M A W)) (m : Middleware M A W) (ms ns : List (Middleware M A W))
    (command : M) (w : W)
    → (dispatch_command issubclass type_of registry (m ∷ ms) command w
        ≡ m command (dispatch_command issubclass type_of registry ms) w)
      × (dispatch_command issubclass type_of registry (ms ++ ns) command w
          ≡ layered ms (dispatch_command issubclass type_of registry ns) command w)
      × (dispatch_command issubclass type_of registry [] command w
          ≡ handle issubclass type_of command false true registry w)
      × (dispatch_query issubclass type_of registry ms command w
          ≡ dispatch_command issubclass type_of registry ms command w)
unfolding dispatch_command dispatch_query
dispatch-layers {K} {M} {A} {W} issubclass type_of registry m ms ns command w =
    let h : Handler M A W = λ i. handle issubclass type_of i false true registry in
    (
      ap (λ f. f command w) (layered-cons m ms h),
      ap (λ f. f command w) (layered-append ms ns h),
      ap (λ f. f command w) (layered-nil h),
      refl,
    )
