-- ===== src/Cqrs/Buses/Tests.antt =====
-- Runs of the buses over a log of numbers, and the theorems at concrete buses.
use hexastack.Base.{
  ℕ, Bool, true, false, some, List, [], ◌∷◌, ◌++◌, ◌==◌, ◌||◌, ◌&&◌, zero, suc, ◌≡◌, refl,
  ℕ_discrete,
}
use hexastack.Base.Outcome.{returned, raised, value_error}
use hexastack.Dict.{nat_key}
use hexastack.Core.Registry.{Handler, Registry, handle, get, first_match}
use hexastack.Cqrs.Buses.{
  Middleware, layered, dispatch_command, dispatch_query, handlers, subscribe,
}
use hexastack.Cqrs.Buses.Onion.{dispatch-layers}

-- Class 2 is a subclass of 1; a message is its class.
abbrev issubclass : ℕ → ℕ → Bool
issubclass a zero = true
issubclass a (suc b) = a == suc b || (a == 2 && suc b == 1)

abbrev type_of : ℕ → ℕ
type_of m = m

-- A handler that appends its number to the log, and one that raises after it.
abbrev says : ℕ → Handler ℕ ℕ (List ℕ)
says n m log = (returned (some m), log ++ n ∷ [])

abbrev fails : ℕ → Handler ℕ ℕ (List ℕ)
fails n m log = (raised value_error, log ++ n ∷ [])

-- A middleware that logs before and after what it wraps.
abbrev logs : ℕ → Middleware ℕ ℕ (List ℕ)
logs n m next log = let (r, log') = next m (log ++ n ∷ []) in (r, log' ++ n ∷ [])

abbrev registry : Registry ℕ (Handler ℕ ℕ (List ℕ))
registry = (1, says 7) ∷ []

onion_order :
    dispatch_command issubclass type_of registry (logs 4 ∷ logs 5 ∷ []) 2 []
    ≡ (returned (some 2), 4 ∷ 5 ∷ 7 ∷ 5 ∷ 4 ∷ [])
unfolding dispatch_command handle get first_match ℕ_discrete
onion_order = refl

-- A second subscription to a class comes before the first one to a class subscribed to later.
subscribed_order :
    handlers {H = ℕ} issubclass 2 (subscribe 1 9 (subscribe 2 8 (subscribe 1 7 [])))
    ≡ 7 ∷ 9 ∷ 8 ∷ []
unfolding handlers subscribe ℕ_discrete
subscribed_order = refl

dispatch-layers_example :
    (dispatch_command issubclass type_of registry (logs 4 ∷ logs 5 ∷ []) 2 []
      ≡ logs 4 2 (dispatch_command issubclass type_of registry (logs 5 ∷ [])) [])
    × (dispatch_command issubclass type_of registry ((logs 5 ∷ []) ++ logs 6 ∷ []) 2 []
        ≡ layered (logs 5 ∷ []) (dispatch_command issubclass type_of registry (logs 6 ∷ [])) 2 [])
    × (dispatch_command issubclass type_of registry [] 2 []
        ≡ handle issubclass type_of 2 false true registry [])
    × (dispatch_query issubclass type_of registry (logs 5 ∷ []) 2 []
        ≡ dispatch_command issubclass type_of registry (logs 5 ∷ []) 2 [])
dispatch-layers_example =
    dispatch-layers issubclass type_of registry (logs 4) (logs 5 ∷ []) (logs 6 ∷ []) 2 []
