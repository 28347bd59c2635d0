-- ===== src/Core/UnitOfWork.antt =====
-- packages/hexastack_core/src/hexastack_core/ports/unit_of_work.py and its in-memory adapter in
-- adapters/unit_of_work/in_memory.py.
pub mod Scopes
mod Tests
use hexastack.Base.{ℕ, ◌+◌, Bool, true, false, List, [], ◌∷◌, if◌then◌else◌}
use hexastack.Base.Outcome.{Outcome, returned, raised, interrupted, unit_of_work_error}

-- `InMemoryUnitOfWork`
pub record UnitOfWork : Type 0 where
  pub reraise : Bool
  pub committed : Bool
  pub rolled_back : Bool
  pub commit_count : ℕ
  pub rollback_count : ℕ

pub init : Bool → UnitOfWork
init reraise = record {
  reraise = reraise;
  committed = false;
  rolled_back = false;
  commit_count = 0;
  rollback_count = 0;
}

pub clear : UnitOfWork → UnitOfWork
clear u = record u { committed = false; rolled_back = false; commit_count = 0; rollback_count = 0 }

pub commit : UnitOfWork → UnitOfWork
commit u = record u { committed = true; commit_count = u.commit_count + 1 }

pub rollback : UnitOfWork → UnitOfWork
rollback u = record u { rolled_back = true; rollback_count = u.rollback_count + 1 }

-- `__exit__` with the outcome of the block, which any exception makes a failure, an interruption too.
unfoldable pub exit : {A : Type 0} → Outcome A × UnitOfWork → Outcome A × UnitOfWork
unfolding commit rollback
exit (returned a, u) = (returned a, commit u)
exit (raised e, u) = (if u.reraise then raised unit_of_work_error else raised e, rollback u)
exit (interrupted, u) = (if u.reraise then raised unit_of_work_error else interrupted, rollback u)

-- `with uow: ...`, whose block may use the unit itself.
unfoldable pub scope :
    {A : Type 0} → (UnitOfWork → Outcome A × UnitOfWork) → UnitOfWork → Outcome A × UnitOfWork
unfolding exit
scope block u = exit (block u)
