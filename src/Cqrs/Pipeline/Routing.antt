-- ===== src/Cqrs/Pipeline/Routing.antt =====
-- What `execute` and `execute_by_name` give on every way through them.
use hexastack.Base.{String, true, false, Option, none, some, ◌≡◌, ◌≢◌, refl, arith, All}
use hexastack.Base.Outcome.{
  Exn, Outcome, returned, raised, interrupted, ambiguous_message, unregistered_message,
}
use hexastack.Dict.{Key, lookup, string_key}
use hexastack.Core.Registry.{Handler, Registry, handle, handle_with, get, has_type, get_type}
use hexastack.Core.Registry.Lookup.{get-total}
use hexastack.Cqrs.Pipeline.{
  Types, ExecutionPipeline, route, presented, caught, mapped, error_data, execute, execute_by_name,
  execute_class, execute_validated,
}

module _ {K M V W Payload : Type 0} ⦃key : Key K⦄ (types : Types K M V Payload)
    (p : ExecutionPipeline K M V W) where
  -- The handler of exceptions always returns data that Python counts as true.
  abbrev pub Describes : Handler Exn V W → Type 0
  Describes h =
      (exc : Exn) (w : W)
      → (d : V) × (w' : W) × (h exc w ≡ (returned (some d), w')) × (types.truthy d ≡ true)

  mapped-returned :
      (registry : Registry K (Handler Exn V W)) (h : Handler Exn V W) (exc : Exn) (w : W)
      → get types.issubclass (types.exception_class exc) false registry ≡ some h
      → Describes h
      → (d : V) × (w' : W) × (mapped types p (some registry) exc w ≡ (returned (some d), w'))
  unfolding mapped error_data handle handle_with
  mapped-returned registry h exc w found q =
      let (d, w', e, t) = q exc w in (d, w', rw (found, e, t) refl)

  caught-ne-raised :
      (registry : Registry K (Handler Exn V W)) (base : K) (h : Handler Exn V W)
      (r : Outcome (Option V) × W) (e : Exn)
      → p.exception_registry ≡ some registry
      → lookup base registry ≡ some h
      → ((exc : Exn) → types.issubclass (types.exception_class exc) base ≡ true)
      → All (λ x. Describes x.1) registry
      → (caught types p r).0 ≢ raised e
  unfolding caught
  caught-ne-raised registry base h (returned v, w) e has found sub all x = cc x
  caught-ne-raised registry base h (interrupted, w) e has found sub all x = cc x
  caught-ne-raised registry base h (raised exc, w) e has found sub all x =
      let (g, got, q) =
        get-total types.issubclass (types.exception_class exc) base h registry Describes (sub exc)
          found all in
      let (d, w', m) = mapped-returned registry g exc w got q in cc (has, m, x)

  -- If the exception registry has a handler for a superclass of every exception, and its handlers always
  -- return data that counts as true, then `execute` never raises an exception, whatever the buses, the
  -- handlers and the presenters raise.
  pub execute-ne-raised :
      (registry : Registry K (Handler Exn V W)) (base : K) (h : Handler Exn V W)
      (output_format : Option String) (instance_ : M) (w : W) (e : Exn)
      → p.exception_registry ≡ some registry
      → lookup base registry ≡ some h
      → ((exc : Exn) → types.issubclass (types.exception_class exc) base ≡ true)
      → All (λ x. Describes x.1) registry
      → (execute types p output_format instance_ w).0 ≢ raised e
  unfolding execute
  execute-ne-raised registry base h output_format instance_ w e has found sub all =
      caught-ne-raised registry base h (presented types p output_format (route types p instance_ w))
        e has found sub all

  -- A name in both type registries is an error, and so is one in neither, with nothing done; a name in one
  -- of them builds the message and executes it, and a payload that does not validate raises instead.
  execute_by_name-cases :
      (name : String) (payload : Payload) (output_format : Option String) (w : W) (cls cls' : K)
      (instance_ : M) (e : Exn)
      → (lookup name p.command_registry ≡ some cls
          → lookup name p.query_registry ≡ some cls'
          → execute_by_name types p name payload output_format w ≡ (raised ambiguous_message, w))
        × (lookup name p.command_registry ≡ none
            → lookup name p.query_registry ≡ none
            → execute_by_name types p name payload output_format w
              ≡ (raised unregistered_message, w))
        × (lookup name p.command_registry ≡ some cls
            → lookup name p.query_registry ≡ none
            → types.model_validate cls payload ≡ returned instance_
            → execute_by_name types p name payload output_format w
              ≡ execute types p output_format instance_ w)
        × (lookup name p.command_registry ≡ none
            → lookup name p.query_registry ≡ some cls
            → types.model_validate cls payload ≡ returned instance_
            → execute_by_name types p name payload output_format w
              ≡ execute types p output_format instance_ w)
        × (lookup name p.command_registry ≡ some cls
            → lookup name p.query_registry ≡ none
            → types.model_validate cls payload ≡ raised e
            → execute_by_name types p name payload output_format w ≡ (raised e, w))
  unfolding execute_by_name execute_class execute_validated has_type get_type
  execute_by_name-cases name payload output_format w cls cls' instance_ e = (
    (λ c q. ground (arith, c, q)),
    (λ c q. ground (arith, c, q)),
    (λ c q v. ground (arith, c, q, v)),
    (λ c q v. ground (arith, c, q, v)),
    (λ c q v. ground (arith, c, q, v)),
  )
