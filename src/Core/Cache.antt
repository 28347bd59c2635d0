-- ===== src/Core/Cache.antt =====
-- packages/hexastack_core/src/hexastack_core/adapters/cache/in_memory.py. `V` is the type of values.
-- Times and times to live are whole milliseconds, not negative; the clock's time is passed in.
pub mod Visible
mod Tests
use hexastack.Base.{
  ℕ, ◌+◌, String, Bool, true, false, Option, none, some, List, [], ◌∷◌, ltb, if◌then◌else◌, is_some,
}
use hexastack.Dict.{Dict, lookup, insert, erase, contains, string_key}

-- `_store` of `InMemoryCache`: the value, and when it expires, if it does.
abbrev pub Store : Type 0 → Type 0
Store V = Dict String (V × Option ℕ)

-- `expiry is not None and self._now() > expiry`
abbrev pub is_expired : ℕ → Option ℕ → Bool
is_expired now none = false
is_expired now (some expiry) = ltb expiry now

abbrev expiry_of : ℕ → Option ℕ → Option ℕ
expiry_of now none = none
expiry_of now (some ttl) = some (now + ttl)

module _ {V : Type 0} where
  unfoldable pub get_found : Option (V × Option ℕ) → String → V → ℕ → Store V → V × Store V
  get_found none key default now s = (default, s)
  get_found (some (v, expiry)) key default now s =
      if is_expired now expiry then (default, erase key s) else (v, s)

  unfoldable pub get : String → V → ℕ → Store V → V × Store V
  unfolding get_found
  get key default now s = get_found (lookup key s) key default now s

  has_found : Option (V × Option ℕ) → String → ℕ → Store V → Bool × Store V
  has_found none key now s = (false, s)
  has_found (some (v, expiry)) key now s =
      if is_expired now expiry then (false, erase key s) else (true, s)

  unfoldable pub has : String → ℕ → Store V → Bool × Store V
  unfolding has_found
  has key now s = has_found (lookup key s) key now s

  unfoldable pub set : String → V → Option ℕ → ℕ → Store V → Store V
  set key value ttl now s = insert key (value, expiry_of now ttl) s

  unfoldable pub delete : String → Store V → Bool × Store V
  delete key s = (contains key s, erase key s)

  pub clear : Store V → Store V
  clear s = []

-- The methods as data, each with the time of its call.
pub data Call (V : Type 0) : Type 0 where
  gets : String → V → Call V
  checks : String → Call V
  sets : String → V → Option ℕ → Call V
  deletes : String → Call V
  clears : Call V

module _ {V : Type 0} where
  pub step : Store V → ℕ × Call V → Store V
  unfolding get has set delete clear
  step s (now, gets key default) = (get key default now s).1
  step s (now, checks key) = (has key now s).1
  step s (now, sets key value ttl) = set key value ttl now s
  step s (now, deletes key) = (delete key s).1
  step s (now, clears) = clear s

  pub run : Store V → List (ℕ × Call V) → Store V
  unfolding step
  run s [] = s
  run s (c ∷ cs) = run (step s c) cs
