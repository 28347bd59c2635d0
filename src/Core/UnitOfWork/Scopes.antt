-- ===== src/Core/UnitOfWork/Scopes.antt =====
-- Scopes one after the other on one unit of work.
use hexastack.Base.{◌+◌, ◌≡◌, refl, Bool, true, false, List, [], ◌∷◌, keep, length, arith, not}
use hexastack.Base.Outcome.{Outcome, returned, raised, interrupted}
use hexastack.Core.UnitOfWork.{UnitOfWork, commit, rollback, exit, scope}

module _ {A : Type 0} where
  -- Scopes whose blocks end as listed and leave the unit alone: what each `with` statement ends with,
  -- and the unit after them.
  pub scopes : List (Outcome A) → UnitOfWork → List (Outcome A) × UnitOfWork
  scopes [] u = ([], u)
  scopes (o ∷ os) u =
      let (o', u') = scope (λ v. (o, v)) u in let (os', u'') = scopes os u' in (o' ∷ os', u'')

  abbrev pub succeeds : Outcome A → Bool
  succeeds (returned a) = true
  succeeds (raised e) = false
  succeeds interrupted = false

  -- Each scope commits once if its block returns and rolls back once if not, never both; the `with`
  -- statements succeed where the blocks do, and without `reraise` they end just as the blocks end.
  scopes-counts :
      (os : List (Outcome A)) (u : UnitOfWork)
      → ((scopes os u).1.commit_count ≡ u.commit_count + length (keep succeeds os))
        × ((scopes os u).1.rollback_count
            ≡ u.rollback_count + length (keep (λ o. not (succeeds o)) os))
        × (length (keep succeeds (scopes os u).0) ≡ length (keep succeeds os))
        × (u.reraise ≡ false → (scopes os u).0 ≡ os)
  unfolding scopes scope exit commit rollback
  scopes-counts [] u = (omega arith, omega arith, refl, λ h. refl)
  scopes-counts (returned a ∷ os) u =
      let (c, r, s, t) = scopes-counts os (commit u) in
      (ground (arith, c), ground (arith, r), ground (arith, s), λ h. ground (arith, t h))
  scopes-counts (raised e ∷ os) u =
      let (c, r, s, t) = scopes-counts os (rollback u) in
      (ground (arith, c), ground (arith, r), ground (arith, s), λ h. ground (arith, t h, h))
  scopes-counts (interrupted ∷ os) u =
      let (c, r, s, t) = scopes-counts os (rollback u) in
      (ground (arith, c), ground (arith, r), ground (arith, s), λ h. ground (arith, t h, h))
