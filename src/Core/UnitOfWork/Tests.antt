-- ===== src/Core/UnitOfWork/Tests.antt =====
-- The theorem on scopes at concrete outcomes.
use hexastack.Base.{ℕ, List, [], ◌∷◌}
use hexastack.Base.Outcome.{Outcome, returned, raised, interrupted, other}

abbrev ends : List (Outcome ℕ)
ends = returned 1 ∷ raised (other 2) ∷ interrupted ∷ returned 4 ∷ []
