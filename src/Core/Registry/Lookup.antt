-- ===== src/Core/Registry/Lookup.antt =====
-- Which handler a class gets: its own, or the first registered one of a superclass.
use hexastack.Base.{
  Bool, true, false, Option, none, some, [], ◌∷◌, ◌++◌, Bool-cases, ◌≡◌, ◌≢◌, refl, ap, ◌⊎◌, inl,
  inr, All, arith, Option-cases,
}
use hexastack.Dict.{Key, lookup, lookup-insert_self, lookup-insert_ne, lookup-All}
use hexastack.Core.Registry.{Registry, first_match, get, get_found, register}

module _ {K H : Type 0} ⦃key : Key K⦄ (issubclass : K → K → Bool) where
  -- No registered class is a superclass of `cls`.
  abbrev pub Unrelated : K → Registry K H → Type 0
  Unrelated cls m = All (λ e. issubclass cls e.0 ≡ false) m

  -- The entry of the handler, with the entries registered before and after it.
  pub record IsFirst (cls : K) (m : Registry K H) (h : H) : Type 0 where
    pub earlier : Registry K H
    pub later : Registry K H
    pub registered : K
    pub splits : m ≡ earlier ++ (registered, h) ∷ later
    pub is_super : issubclass cls registered ≡ true
    pub skipped : Unrelated cls earlier

  first_match-IsFirst :
      (cls : K) (m : Registry K H) (h : H) → first_match issubclass cls m ≡ some h → IsFirst cls m h
  unfolding first_match
  first_match-IsFirst cls [] h e = absurd (ground arith)
  first_match-IsFirst cls ((k, g) ∷ m) h e = elim (Bool-cases (issubclass cls k)) [
    | inl yes_ ↦
        let same : g ≡ h = ground arith in
        record {
          earlier = [];
          later = m;
          registered = k;
          splits = ap (λ x. (k, x) ∷ m) same;
          is_super = yes_;
          skipped = tt;
        }
    | inr no_ ↦
        let r = first_match-IsFirst cls m h (ground arith) in
        record {
          earlier = (k, g) ∷ r.earlier;
          later = r.later;
          registered = r.registered;
          splits = ap (◌∷◌ (k, g)) r.splits;
          is_super = r.is_super;
          skipped = (no_, r.skipped);
        }
  ]

  first_match-none :
      (cls : K) (m : Registry K H) → first_match issubclass cls m ≡ none → Unrelated cls m
  unfolding first_match
  first_match-none cls [] e = tt
  first_match-none cls ((k, g) ∷ m) e = elim (Bool-cases (issubclass cls k)) [
    | inl yes_ ↦ absurd (ground arith)
    | inr no_ ↦ (no_, first_match-none cls m (ground arith))
  ]

  -- What a lookup by class may give.
  abbrev pub Resolves : K → Registry K H → Option H → Type 0
  Resolves cls m none = (lookup cls m ≡ none) × Unrelated cls m
  Resolves cls m (some h) = (lookup cls m ≡ some h) ⊎ ((lookup cls m ≡ none) × IsFirst cls m h)

  get_found-Resolves :
      (o : Option H) (cls : K) (m : Registry K H)
      → lookup cls m ≡ o
      → Resolves cls m (get_found issubclass o cls false m)
  unfolding get_found
  get_found-Resolves (some h) cls m e = inl e
  get_found-Resolves none cls m e = elim (Option-cases (first_match issubclass cls m)) [
    | inl no_ ↦ rw no_ (e, first_match-none cls m no_)
    | inr (h, yes_) ↦ rw yes_ (inr (e, first_match-IsFirst cls m h yes_))
  ]

  -- A lookup by class gives the handler of the class itself if one is registered; if not, the handler
  -- registered first among those of its superclasses; and nothing only if none of these is registered.
  get-Resolves : (cls : K) (m : Registry K H) → Resolves cls m (get issubclass cls false m)
  unfolding get
  get-Resolves cls m = get_found-Resolves (lookup cls m) cls m refl

  -- A handler that is registered is the one that its class gets, exactly or not, and an exact lookup of
  -- any other class is as before.
  pub get-register :
      (cls other : K) (h : H) (exact : Bool) (m : Registry K H)
      → other ≢ cls
      → (get issubclass cls exact (register cls h m) ≡ some h)
        × (get issubclass other true (register cls h m) ≡ get issubclass other true m)
  unfolding get register get_found
  get-register cls other h exact m ne = (
    ground (arith, lookup-insert_self cls h m),
    ground (arith, lookup-insert_ne other cls h m ne),
  )

  All-split {κ} :
      (P : K × H → Type κ) (xs ys : Registry K H) (e : K × H) → All P (xs ++ e ∷ ys) → P e
  All-split P [] ys e a = a.0
  All-split P (x ∷ xs) ys e a = All-split P xs ys e a.1

  Resolves-total :
      (o : Option H) (cls base : K) (h : H) (m : Registry K H) (Q : H → Type 0)
      → issubclass cls base ≡ true
      → lookup base m ≡ some h
      → All (λ e. Q e.1) m
      → Resolves cls m o
      → (g : H) × (o ≡ some g) × Q g
  Resolves-total none cls base h m Q sub e a r =
      absurd (ground (arith, sub, lookup-All (λ e. issubclass cls e.0 ≡ false) base h m e r.1))
  Resolves-total (some g) cls base h m Q sub e a (inl found) =
      (g, refl, lookup-All (λ e. Q e.1) cls g m found a)
  Resolves-total (some g) cls base h m Q sub e a (inr (own, r)) =
      (g, refl, All-split (λ e. Q e.1) r.earlier r.later (r.registered, g) (rw r.splits at a))

  -- If a superclass of the class is registered, the class gets a handler, and what holds of every handler
  -- of the registry holds of it.
  pub get-total :
      (cls base : K) (h : H) (m : Registry K H) (Q : H → Type 0)
      → issubclass cls base ≡ true
      → lookup base m ≡ some h
      → All (λ e. Q e.1) m
      → (g : H) × (get issubclass cls false m ≡ some g) × Q g
  get-total cls base h m Q sub e a =
      Resolves-total (get issubclass cls false m) cls base h m Q sub e a (get-Resolves cls m)
