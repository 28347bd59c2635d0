-- ===== src/Base/Outcome.antt =====
-- How a Python call ends: it returns, it raises an `Exception`, or it is ended by a `BaseException`
-- that no `except Exception` clause catches (`KeyboardInterrupt`, `asyncio.CancelledError`).
use Prim.Native.Nat.{ℕ}
use mathlib.Core.Path.{◌≡◌, refl}
use mathlib.Core.Bool.{Bool}
use mathlib.Core.Option.{Option, none, some}
use native.Mathlib.Omega.{arith}
use hexastack.Base.Tests.{if◌then◌else◌}

-- The exceptions that the modelled code raises itself, and `other` for those of its callees.
pub data Exn : Type 0 where
  circuit_breaker_open_error unit_of_work_error lock_error pointer_resolution_error : Exn
  handler_not_registered assertion_error value_error index_error : Exn
  feature_flag_disabled ambiguous_message unregistered_message : Exn
  invalid_amount account_not_found account_already_exists account_frozen : Exn
  insufficient_funds unbalanced_transaction concurrency_conflict : Exn
  user_already_exists user_not_found invalid_token invalid_credentials account_inactive : Exn
  invalid_webhook_signature webhook_replay token_limit_exceeded type_error : Exn
  other : ℕ → Exn

pub data Outcome {ℓ} (A : Type ℓ) : Type ℓ where
  returned : A → Outcome A
  raised : Exn → Outcome A
  interrupted : Outcome A

-- How a method that returns nothing ends.
abbrev pub Done : Type 0
Done = Outcome (Unit {0})

-- A chain of steps that may raise.
infixl 5 ◌>>=◌
abbrev pub ◌>>=◌ {ℓ κ} : {A : Type ℓ} {B : Type κ} → Outcome A → (A → Outcome B) → Outcome B
returned a >>= f = f a
raised e >>= f = raised e
interrupted >>= f = interrupted

-- `if test: raise e`
abbrev pub raise_if : Bool → Exn → Done
raise_if test e = if test then raised e else returned tt

-- `if x is None: raise e`
abbrev pub required {ℓ} : {A : Type ℓ} → Exn → Option A → Outcome A
required e none = raised e
required e (some a) = returned a

-- A chain that returns has got through its first step.
pub bind-returned {ℓ κ} :
    {A : Type ℓ} {B : Type κ} (m : Outcome A) (f : A → Outcome B) {b : B}
    → m >>= f ≡ returned b
    → (a : A) × (m ≡ returned a) × (f a ≡ returned b)
bind-returned (returned a) f h = (a, refl, h)
bind-returned (raised e) f h = absurd (ground arith)
bind-returned interrupted f h = absurd (ground arith)

-- The same as a case analysis, which leaves the value a variable.
pub bind-elim {ℓ κ μ} :
    {A : Type ℓ} {B : Type κ} {C : Type μ} (m : Outcome A) (f : A → Outcome B) {b : B}
    → m >>= f ≡ returned b
    → ((a : A) → m ≡ returned a → f a ≡ returned b → C)
    → C
bind-elim m f h k = let (a, p, q) = bind-returned m f h in k a p q
