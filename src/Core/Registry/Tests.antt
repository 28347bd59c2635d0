-- ===== src/Core/Registry/Tests.antt =====
-- Runs of the registries, and the theorems at concrete classes.
use hexastack.Base.{
  ℕ, Bool, true, false, some, [], ◌∷◌, ◌==◌, ◌||◌, ◌&&◌, ◌≡◌, refl, arith, ℕ_discrete,
  String_discrete,
}
use hexastack.Base.Outcome.{raised, handler_not_registered}
use hexastack.Dict.{nat_key}
use hexastack.Core.Registry.{Registry, get, register, first_match, get_type, register_by_name}
use hexastack.Core.Registry.Lookup.{get-register}

-- Class 3 is a subclass of 2 and 1, class 2 of 1.
abbrev issubclass : ℕ → ℕ → Bool
issubclass a b = a == b || (b == 1 && (a == 2 || a == 3)) || (b == 2 && a == 3)

abbrev registry : Registry ℕ ℕ
registry = (1, 10) ∷ (2, 20) ∷ []

-- Class 3 gets the handler of class 1, registered first, although class 2 is nearer.
first_registered : get issubclass 3 false registry ≡ some 10
unfolding get first_match ℕ_discrete
first_registered = refl

unknown_name : get_type {K = ℕ} "x" (register_by_name 5 "y" []) ≡ raised handler_not_registered
unfolding get_type register_by_name String_discrete
unknown_name = refl

get-register_example :
    (get issubclass 3 true (register 3 30 registry) ≡ some 30)
    × (get issubclass 2 true (register 3 30 registry) ≡ get issubclass 2 true registry)
get-register_example = get-register issubclass 3 2 30 true registry (λ e. absurd (omega arith))
