-- ===== src/Core/Registry.antt =====
-- packages/hexastack_core/src/hexastack_core/infra/registries/generic.py. `K` is the type of classes, `M`
-- of messages and `V` of results, where `none` is Python's `None`; `W` is what handlers act on.
-- Handlers are functions, which Python counts as true.
pub mod Lookup
mod Tests
use hexastack.Base.{
  String, Bool, true, false, Option, none, some, List, [], ◌∷◌, if◌then◌else◌, is_some,
}
use hexastack.Base.Outcome.{Outcome, returned, raised, handler_not_registered}
use hexastack.Dict.{Dict, Key, lookup, insert, contains, string_key}

-- A call with an effect on `W`.
abbrev pub Action : Type 0 → Type 0 → Type 0
Action W A = W → Outcome A × W

abbrev pub Handler : Type 0 → Type 0 → Type 0 → Type 0
Handler M V W = M → Action W (Option V)

-- `_mapper` of `GenericHandlerRegistry`.
abbrev pub Registry : Type 0 → Type 0 → Type 0
Registry K H = Dict K H

module _ {K H : Type 0} ⦃key : Key K⦄ (issubclass : K → K → Bool) where
  -- The loop of `get` over the registered classes.
  unfoldable pub first_match : K → Registry K H → Option H
  first_match cls [] = none
  first_match cls ((registered, handler) ∷ m) =
      let rest = first_match cls m in if issubclass cls registered then some handler else rest

  unfoldable pub get_found : Option H → K → Bool → Registry K H → Option H
  get_found (some handler) cls exact m = some handler
  get_found none cls exact m = if exact then none else first_match cls m

  unfoldable pub get : K → Bool → Registry K H → Option H
  unfolding get_found
  get cls exact m = get_found (lookup cls m) cls exact m

  -- `cls in registry`
  pub has : K → Registry K H → Bool
  unfolding get
  has cls m = is_some (get cls false m)

module _ {K H : Type 0} ⦃key : Key K⦄ where
  pub register : K → H → Registry K H → Registry K H
  register cls handler m = insert cls handler m

  pub clear : Registry K H → Registry K H
  clear m = []

  pub all : Registry K H → Registry K H
  all m = m

module _ {K M V W : Type 0} ⦃key : Key K⦄ (issubclass : K → K → Bool) (type_of : M → K) where
  unfoldable pub handle_with : Option (Handler M V W) → M → Bool → Action W (Option V)
  handle_with (some handler) instance_ reraise w = handler instance_ w
  handle_with none instance_ reraise w =
      (if reraise then raised handler_not_registered else returned none, w)

  unfoldable pub handle : M → Bool → Bool → Registry K (Handler M V W) → Action W (Option V)
  unfolding handle_with
  handle instance_ exact reraise m w =
      handle_with (get issubclass (type_of instance_) exact m) instance_ reraise w

-- `_mapper` of `GenericTypeRegistry`.
abbrev pub TypeRegistry : Type 0 → Type 0
TypeRegistry K = Dict String K

module _ {K : Type 0} where
  abbrev or_unregistered : Option K → Outcome K
  or_unregistered none = raised handler_not_registered
  or_unregistered (some cls) = returned cls

  unfoldable pub get_type : String → TypeRegistry K → Outcome K
  get_type name m = or_unregistered (lookup name m)

  unfoldable pub has_type : String → TypeRegistry K → Bool
  has_type name m = contains name m

  pub register_by_name : K → String → TypeRegistry K → TypeRegistry K
  register_by_name cls name m = insert name cls m

  -- `cls.__name__` is the argument `name_of`.
  pub register_type : (K → String) → K → TypeRegistry K → TypeRegistry K
  unfolding register_by_name
  register_type name_of cls m = register_by_name cls (name_of cls) m
