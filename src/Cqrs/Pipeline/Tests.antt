-- ===== src/Cqrs/Pipeline/Tests.antt =====
-- The theorems at a concrete pipeline. Classes are numbers: 0 is the class of all exceptions.
use hexastack.Base.{ℕ, Bool, true, none, some, [], ◌∷◌, ◌==◌, ◌||◌, ◌≡◌, refl, ◌≢◌, arith}
use hexastack.Base.Outcome.{Exn, returned, raised, value_error}
use hexastack.Dict.{nat_key, string_key}
use hexastack.Core.Registry.{Handler}
use hexastack.Cqrs.Pipeline.{command, Types, ExecutionPipeline, execute}
use hexastack.Cqrs.Pipeline.Routing.{execute-ne-raised}

abbrev super : ℕ → ℕ → Bool
super a b = a == b || b == 0

abbrev types : Types ℕ ℕ ℕ ℕ
types = record {
  issubclass = super;
  type_of = λ m. m;
  kind_of = λ m. command;
  exception_class = λ e. 7;
  model_class = λ v. none;
  truthy = λ v. true;
  model_validate = λ cls payload. returned payload;
}

abbrev fails : Handler ℕ ℕ ℕ
fails m w = (raised value_error, w)

abbrev describes : Handler Exn ℕ ℕ
describes exc w = (returned (some 500), w)

abbrev pipeline : ExecutionPipeline ℕ ℕ ℕ ℕ
pipeline = record {
  handler_registry = [];
  command_registry = ("pay", 3) ∷ [];
  query_registry = [];
  presenter_registry = [];
  exception_registry = some ((0, describes) ∷ []);
  command_bus = fails;
  query_bus = fails;
  event_bus = λ m w. (returned tt, w);
}

super_0 : (n : ℕ) → super n 0 ≡ true
super_0 n = ground arith

execute-ne-raised_example : (execute types pipeline none 5 9).0 ≢ raised value_error
execute-ne-raised_example =
    execute-ne-raised types pipeline ((0, describes) ∷ []) 0 describes none 5 9 value_error refl
      (ground arith) (λ exc. super_0 7) (λ exc w. (500, w, refl, refl), tt)
