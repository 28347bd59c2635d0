-- ===== src/Core/Cache/Visible.antt =====
-- What a reader of the cache can see, and that reading changes nothing that can be seen.
use hexastack.Base.{
  ℕ, ◌≤◌, ◌<◌, ◌≡◌, refl, ap, sym, ◌∙◌, String, true, false, Option, none, some, List, [], ◌∷◌, inl,
  inr, if◌then◌else◌, arith, Option-cases, is_some, ite,
}
use hexastack.Dict.{
  lookup, insert, erase, string_key, lookup-insert_self, lookup-insert_ne, lookup-erase_self,
  lookup-erase_ne,
}
use hexastack.Core.Cache.{
  Store, is_expired, expiry_of, get_found, has_found, get, has, set, delete, clear, Call, gets,
  checks, sets, deletes, clears, step, run,
}

module _ {V : Type 0} where
  abbrev live : ℕ → Option (V × Option ℕ) → Option V
  live now none = none
  live now (some (v, expiry)) = if is_expired now expiry then none else some v

  -- The value that the store holds for a key at a time.
  abbrev pub visible : ℕ → Store V → String → Option V
  visible now s key = live now (lookup key s)

  abbrev pub or_default : V → Option V → V
  or_default d none = d
  or_default d (some v) = v

  -- `get` returns the visible value or the default, and `has` tells whether there is one.
  pub get-has-visible :
      (key : String) (default : V) (now : ℕ) (s : Store V)
      → ((get key default now s).0 ≡ or_default default (visible now s key))
        × ((has key now s).0 ≡ is_some (visible now s key))
  unfolding get has
  get-has-visible key default now s = ground arith

  -- Two stores that show the same from a time on.
  abbrev pub Agree : ℕ → Store V → Store V → Type 0
  Agree now s s' = (key : String) (t : ℕ) → now ≤ t → visible t s key ≡ visible t s' key

  erase_expired :
      (key other : String) (v : V) (expiry : Option ℕ) (now t : ℕ) (s : Store V)
      → lookup key s ≡ some (v, expiry)
      → is_expired now expiry ≡ true
      → now ≤ t
      → visible t (erase key s) other ≡ visible t s other
  erase_expired key other v expiry now t s e x le = elim (string_key.dec other key) [
    | no n ↦ ap (live t) (lookup-erase_ne other key s n)
    | yes p ↦ rw p (ground (arith, lookup-erase_self key s, e))
  ]

  get-Agree :
      (key : String) (default : V) (now : ℕ) (s : Store V) → Agree now (get key default now s).1 s
  unfolding get
  get-Agree key default now s other t le = elim (Option-cases (lookup key s)) [
    | inl e ↦ rw (e, get, get_found) refl
    | inr ((v, expiry), e) ↦ ground (arith, e, erase_expired key other v expiry now t s e)
  ]

  has-Agree : (key : String) (now : ℕ) (s : Store V) → Agree now (has key now s).1 s
  unfolding has
  has-Agree key now s other t le = elim (Option-cases (lookup key s)) [
    | inl e ↦ rw (e, has, has_found) refl
    | inr ((v, expiry), e) ↦ ground (arith, e, erase_expired key other v expiry now t s e)
  ]

  insert-Agree :
      (key : String) (e : V × Option ℕ) (now : ℕ) (s s' : Store V)
      → Agree now s s'
      → Agree now (insert key e s) (insert key e s')
  insert-Agree key e now s s' h other t le = elim (string_key.dec other key) [
    | no n ↦
        ap (live t) (lookup-insert_ne other key e s n)
        ∙ (h other t le ∙ sym (ap (live t) (lookup-insert_ne other key e s' n)))
    | yes p ↦
        rw p (
          ap (live t) (lookup-insert_self key e s)
          ∙ sym (ap (live t) (lookup-insert_self key e s')))
  ]

  erase-Agree :
      (key : String) (now : ℕ) (s s' : Store V)
      → Agree now s s'
      → Agree now (erase key s) (erase key s')
  erase-Agree key now s s' h other t le = elim (string_key.dec other key) [
    | no n ↦
        ap (live t) (lookup-erase_ne other key s n)
        ∙ (h other t le ∙ sym (ap (live t) (lookup-erase_ne other key s' n)))
    | yes p ↦
        rw p (ap (live t) (lookup-erase_self key s) ∙ sym (ap (live t) (lookup-erase_self key s')))
  ]

  -- The calls of a history that write.
  pub writes : List (ℕ × Call V) → List (ℕ × Call V)
  writes [] = []
  writes ((now, gets key default) ∷ cs) = writes cs
  writes ((now, checks key) ∷ cs) = writes cs
  writes ((now, sets key value ttl) ∷ cs) = (now, sets key value ttl) ∷ writes cs
  writes ((now, deletes key) ∷ cs) = (now, deletes key) ∷ writes cs
  writes ((now, clears) ∷ cs) = (now, clears) ∷ writes cs

  -- The calls come in order of time, from `start` on and up to `end`.
  abbrev pub InTime : ℕ → ℕ → List (ℕ × Call V) → Type 0
  InTime start end [] = start ≤ end
  InTime start end ((now, c) ∷ cs) = (start ≤ now) × InTime now end cs

  InTime-le : (start end : ℕ) (cs : List (ℕ × Call V)) → InTime start end cs → start ≤ end
  InTime-le start end [] h = h
  InTime-le start end ((now, c) ∷ cs) h = omega (arith, h.0, InTime-le now end cs h.1)

  run-Agree :
      (start end : ℕ) (cs : List (ℕ × Call V)) (s s' : Store V)
      → InTime start end cs
      → Agree start s s'
      → (key : String) → visible end (run s cs) key ≡ visible end (run s' (writes cs)) key
  unfolding run step writes set delete clear
  run-Agree start end [] s s' i h = λ key. h key end i
  run-Agree start end ((now, gets k d) ∷ cs) s s' i h =
      run-Agree now end cs (get k d now s).1 s' i.1
        (λ key t le. get-Agree k d now s key t le ∙ h key t (omega (arith, i.0)))
  run-Agree start end ((now, checks k) ∷ cs) s s' i h =
      run-Agree now end cs (has k now s).1 s' i.1
        (λ key t le. has-Agree k now s key t le ∙ h key t (omega (arith, i.0)))
  run-Agree start end ((now, sets k v ttl) ∷ cs) s s' i h =
      run-Agree now end cs _ _ i.1
        (insert-Agree k (v, expiry_of now ttl) now s s' (λ key t le. h key t (omega (arith, i.0))))
  run-Agree start end ((now, deletes k) ∷ cs) s s' i h =
      run-Agree now end cs _ _ i.1
        (erase-Agree k now s s' (λ key t le. h key t (omega (arith, i.0))))
  run-Agree start end ((now, clears) ∷ cs) s s' i h =
      run-Agree now end cs [] [] i.1 (λ key t le. refl)

  -- Reading changes nothing that can be seen: after any history of calls in order of time, every key
  -- shows the same value as if only the writes had been made.
  pub reads_invisible :
      (end : ℕ) (cs : List (ℕ × Call V)) (s : Store V) (key : String)
      → InTime 0 end cs
      → visible end (run s cs) key ≡ visible end (run s (writes cs)) key
  reads_invisible end cs s key i = run-Agree 0 end cs s s i (λ k t le. refl) key

  -- A value that was set is seen by every key's reader until its time to live has passed, and not
  -- after; without one it stays. The other keys show what they did before.
  pub visible-set :
      (key other : String) (value : V) (ttl : Option ℕ) (now t : ℕ) (s : Store V)
      → visible t (set key value ttl now s) other
        ≡ ite
            (string_key.dec other key)
            (if is_expired t (expiry_of now ttl) then none else some value)
            (visible t s other)
  unfolding set
  visible-set key other value ttl now t s = ground (
    arith,
    lookup-insert_self key (value, expiry_of now ttl) s,
    lookup-insert_ne other key (value, expiry_of now ttl) s,
  )

  -- What `delete` reports does depend on reads: an expired entry counts as deleted if nobody has looked
  -- at it since it expired, and as absent if somebody has.
  delete_expired :
      (key : String) (default v : V) (expiry now : ℕ) (s : Store V)
      → lookup key s ≡ some (v, some expiry)
      → expiry < now
      → ((delete key s).0 ≡ true) × ((delete key (get key default now s).1).0 ≡ false)
  unfolding delete get
  delete_expired key default v expiry now s e x = ground (arith, e, lookup-erase_self key s)
