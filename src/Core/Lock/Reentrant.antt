-- ===== src/Core/Lock/Reentrant.antt =====
-- Both locks do what a reentrant lock does: a specification that remembers the holder and its depth.
use hexastack.Base.{
  ℕ, ◌+◌, ◌-◌, ◌≡◌, refl, Bool, true, false, Option, none, some, List, [], ◌∷◌, arith,
  if◌then◌else◌, ◌==◌, sym, ◌∙◌,
}
use hexastack.Base.Outcome.{Done, returned, raised, lock_error}
use hexastack.Core.Lock.{
  Lock, init, acquire, release, locked, AsyncLock, init_async, acquire_async, release_async,
  locked_async,
}

-- The holder and how many times it has acquired the lock again.
abbrev pub Holder : Type 0
Holder = Option (ℕ × ℕ)

pub data Call : Type 0 where
  acquires releases asks : ℕ → Call

-- What a call tells its caller.
pub data Result : Type 0 where
  acquired : Bool → Result
  released : Done → Result
  is_locked : Bool → Result

pub spec_step : Call → Holder → Result × Holder
spec_step (acquires me) none = (acquired true, some (me, 0))
spec_step (acquires me) (some (o, n)) =
    if o == me then (acquired true, some (o, n + 1)) else (acquired false, some (o, n))
spec_step (releases me) none = (released (raised lock_error), none)
spec_step (releases me) (some (o, n)) =
    if o == me
    then (released (returned tt), if n == 0 then none else some (o, n - 1))
    else (released (raised lock_error), some (o, n))
spec_step (asks me) none = (is_locked false, none)
spec_step (asks me) (some (o, n)) = (is_locked true, some (o, n))

unfoldable pub step : Call → Lock → Result × Lock
unfolding acquire release locked
step (acquires me) l = let (ok, l') = acquire me l in (acquired ok, l')
step (releases me) l = let (r, l') = release me l in (released r, l')
step (asks me) l = (is_locked (locked l), l)

pub step_async : Call → AsyncLock → Result × AsyncLock
unfolding acquire_async release_async locked_async
step_async (acquires me) l = let (ok, l') = acquire_async me l in (acquired ok, l')
step_async (releases me) l = let (r, l') = release_async me l in (released r, l')
step_async (asks me) l = (is_locked (locked_async l), l)

-- The results of the calls in turn.
unfoldable pub results : {S : Type 0} → (Call → S → Result × S) → List Call → S → List Result
results f [] s = []
results f (c ∷ cs) s = let (r, s') = f c s in r ∷ results f cs s'

module _ {S T : Type 0} (f : Call → S → Result × S) (g : Call → T → Result × T) (view : T → S) where
  -- A step of `g` that `view` carries to a step of `f` gives the same results for any calls.
  results-view :
      ((c : Call) (t : T) → ((g c t).0 ≡ (f c (view t)).0) × (view (g c t).1 ≡ (f c (view t)).1))
      → (cs : List Call) (t : T) → results g cs t ≡ results f cs (view t)
  unfolding results
  results-view h [] t = refl
  results-view h (c ∷ cs) t = rw ((h c t).0, results-view h cs (g c t).1, (h c t).1)

-- The states that stand for a holder.
abbrev pub lock_of : Holder → Lock
lock_of none = record { lock = record { holder = none; depth = 0 }; count = 0; owner_thread = none }
lock_of (some (o, n)) = record {
  lock = record { holder = some o; depth = n + 1 };
  count = n + 1;
  owner_thread = some o;
}

abbrev async_of : Holder → AsyncLock
async_of none = record { inner_locked = false; owner = none; holds = 0 }
async_of (some (o, n)) = record { inner_locked = true; owner = some o; holds = n + 1 }

step-lock_of :
    (c : Call) (h : Holder)
    → ((spec_step c h).0 ≡ (step c (lock_of h)).0)
      × (lock_of (spec_step c h).1 ≡ (step c (lock_of h)).1)
unfolding step spec_step acquire release locked
step-lock_of (acquires me) none = ground arith
step-lock_of (acquires me) (some (o, n)) = ground arith
step-lock_of (releases me) none = ground arith
step-lock_of (releases me) (some (o, n)) = ground arith
step-lock_of (asks me) none = ground arith
step-lock_of (asks me) (some (o, n)) = ground arith

step_async-async_of :
    (c : Call) (h : Holder)
    → ((spec_step c h).0 ≡ (step_async c (async_of h)).0)
      × (async_of (spec_step c h).1 ≡ (step_async c (async_of h)).1)
unfolding step_async spec_step acquire_async release_async locked_async
step_async-async_of (acquires me) none = ground arith
step_async-async_of (acquires me) (some (o, n)) = ground arith
step_async-async_of (releases me) none = ground arith
step_async-async_of (releases me) (some (o, n)) = ground arith
step_async-async_of (asks me) none = ground arith
step_async-async_of (asks me) (some (o, n)) = ground arith

pub results-step : (cs : List Call) → results spec_step cs none ≡ results step cs init
unfolding init
results-step cs = results-view step spec_step lock_of step-lock_of cs none

-- The asynchronous lock gives the tasks the same results as the lock of threads.
results-step_async : (cs : List Call) → results step_async cs init_async ≡ results step cs init
unfolding init_async
results-step_async cs =
    sym (results-view step_async spec_step async_of step_async-async_of cs none) ∙ results-step cs
