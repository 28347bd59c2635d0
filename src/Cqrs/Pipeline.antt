-- ===== src/Cqrs/Pipeline.antt =====
-- packages/hexastack_cqrs/src/hexastack_cqrs/infra/pipeline.py, with infra/registries/presenter.py and the
-- exception registry of packages/hexastack_core/src/hexastack_core/infra/registries. `K` is the type of
-- classes, `M` of messages, `V` of values other than `None`, and `W` is what the buses act on.
pub mod Routing
mod Tests
use hexastack.Base.{String, Bool, true, false, Option, none, some, List, [], ◌∷◌, if◌then◌else◌}
use hexastack.Base.Outcome.{
  Exn, Outcome, returned, raised, interrupted, Done, ambiguous_message, unregistered_message, other,
}
use hexastack.Dict.{Dict, Key, lookup, insert, string_key, pair_key}
use hexastack.Core.Registry.{Action, Handler, Registry, TypeRegistry, handle, has_type, get_type}

-- `isinstance` of a message with the four kinds.
pub data Kind : Type 0 where
  command query event generic : Kind

-- What the pipeline is built on: the language's view of classes and values, and the code outside.
pub record Types (K M V Payload : Type 0) : Type 0 where
  pub issubclass : K → K → Bool
  pub type_of : M → K
  pub kind_of : M → Kind
  pub exception_class : Exn → K
  -- The class of a value that is a `Generic`.
  pub model_class : V → Option K
  -- `bool(value)`
  pub truthy : V → Bool
  -- `cls.model_validate(payload)`
  pub model_validate : K → Payload → Outcome M

-- `_mapper` of `PresenterRegistry`; a presenter is kept as its `present`.
abbrev pub Presenters : Type 0 → Type 0 → Type 0 → Type 0
Presenters K V W = Dict (K × String) (Handler V V W)

-- The exception registry maps exceptions, as messages, to error data.
pub record ExecutionPipeline (K M V W : Type 0) : Type 0 where
  pub handler_registry : Registry K (Handler M V W)
  pub command_registry : TypeRegistry K
  pub query_registry : TypeRegistry K
  pub presenter_registry : Presenters K V W
  pub exception_registry : Option (Registry K (Handler Exn V W))
  pub command_bus : Handler M V W
  pub query_bus : Handler M V W
  pub event_bus : M → W → Done × W

module _ {V W : Type 0} where
  present_with : Option (Handler V V W) → V → Bool → Exn → Action W (Option V)
  present_with (some presenter) value reraise missing w = presenter value w
  present_with none value reraise missing w = (if reraise then raised missing else returned none, w)

module _ {K V W : Type 0} ⦃key : Key K⦄ where
  -- `PresenterRegistry.present`; `missing` stands for its error.
  pub present : K → V → String → Bool → Exn → Presenters K V W → Action W (Option V)
  unfolding present_with
  present cls value output_format reraise missing m w =
      present_with (lookup (cls, output_format) m) value reraise missing w

module _ {V W : Type 0} where
  -- `presented if presented is not None else raw_result`
  or_raw : V → Outcome (Option V) × W → Outcome (Option V) × W
  or_raw raw (returned none, w) = (returned (some raw), w)
  or_raw raw (returned (some v), w) = (returned (some v), w)
  or_raw raw (raised e, w) = (raised e, w)
  or_raw raw (interrupted, w) = (interrupted, w)

  -- An event has no result.
  no_result : Done × W → Outcome (Option V) × W
  no_result (returned u, w) = (returned none, w)
  no_result (raised e, w) = (raised e, w)
  no_result (interrupted, w) = (interrupted, w)

module _ {K M V W Payload : Type 0} ⦃key : Key K⦄ (types : Types K M V Payload)
    (p : ExecutionPipeline K M V W) where
  -- The routing by kind.
  route_kind : Kind → Handler M V W
  unfolding no_result
  route_kind command instance_ w = p.command_bus instance_ w
  route_kind query instance_ w = p.query_bus instance_ w
  route_kind event instance_ w = no_result (p.event_bus instance_ w)
  route_kind generic instance_ w =
      handle types.issubclass types.type_of instance_ false true p.handler_registry w

  pub route : Handler M V W
  unfolding route_kind
  route instance_ w = route_kind (types.kind_of instance_) instance_ w

  present_model : Option K → V → String → Action W (Option V)
  unfolding present or_raw
  present_model none raw output_format w = (returned (some raw), w)
  present_model (some cls) raw output_format w =
      or_raw raw (present cls raw output_format false (other 0) p.presenter_registry w)

  -- The result of the `try` block from the raw result on.
  presented : Option String → Outcome (Option V) × W → Outcome (Option V) × W
  unfolding present_model
  presented (some f) (returned (some raw), w) = present_model (types.model_class raw) raw f w
  presented none (returned (some raw), w) = (returned (some raw), w)
  presented output_format (returned none, w) = (returned none, w)
  presented output_format (raised e, w) = (raised e, w)
  presented output_format (interrupted, w) = (interrupted, w)

  -- `return error_data` if it is true, else `raise`.
  error_data : Exn → Outcome (Option V) × W → Outcome (Option V) × W
  error_data exc (returned (some d), w) =
      (if types.truthy d then returned (some d) else raised exc, w)
  error_data exc (returned none, w) = (raised exc, w)
  error_data exc (raised e, w) = (raised e, w)
  error_data exc (interrupted, w) = (interrupted, w)

  mapped : Option (Registry K (Handler Exn V W)) → Exn → Action W (Option V)
  unfolding error_data
  mapped none exc w = (raised exc, w)
  mapped (some registry) exc w =
      error_data exc (handle types.issubclass types.exception_class exc false false registry w)

  -- The `except` clause.
  caught : Outcome (Option V) × W → Outcome (Option V) × W
  unfolding mapped
  caught (returned v, w) = (returned v, w)
  caught (raised exc, w) = mapped p.exception_registry exc w
  caught (interrupted, w) = (interrupted, w)

  pub execute : Option String → Handler M V W
  unfolding caught presented route
  execute output_format instance_ w = caught (presented output_format (route instance_ w))

  execute_validated : Outcome M → Option String → Action W (Option V)
  unfolding execute
  execute_validated (returned instance_) output_format w = execute output_format instance_ w
  execute_validated (raised e) output_format w = (raised e, w)
  execute_validated interrupted output_format w = (interrupted, w)

  -- `cls.model_validate(payload)` and `self.execute`, for the class that was found.
  execute_class : Outcome K → Payload → Option String → Action W (Option V)
  unfolding execute_validated
  execute_class (returned cls) payload output_format w =
      execute_validated (types.model_validate cls payload) output_format w
  execute_class (raised e) payload output_format w = (raised e, w)
  execute_class interrupted payload output_format w = (interrupted, w)

  -- `matches` holds the classes of the registries that have the name.
  pub execute_by_name : String → Payload → Option String → Action W (Option V)
  unfolding execute_class
  execute_by_name name payload output_format w =
      if has_type name p.command_registry
      then (if has_type name p.query_registry
          then (raised ambiguous_message, w)
          else execute_class (get_type name p.command_registry) payload output_format w)
      else if has_type name p.query_registry
      then execute_class (get_type name p.query_registry) payload output_format w
      else (raised unregistered_message, w)

  pub get_registered_commands : TypeRegistry K
  get_registered_commands = p.command_registry

  pub get_registered_queries : TypeRegistry K
  get_registered_queries = p.query_registry
