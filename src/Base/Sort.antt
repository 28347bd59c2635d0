-- ===== src/Base/Sort.antt =====
-- Python's `list.sort` is stable: the insertion sort that never moves an element over an equal one.
use mathlib.Core.Bool.{Bool, true, false}
use mathlib.Core.List.{List, [], ◌∷◌, Perm}
use mathlib.Core.List.Perm
use mathlib.Core.Path.{◌≡◌, refl, ap, ◌∙◌}
use mathlib.Core.Logic.{inl, inr}
use native.Mathlib.Omega.{arith}
use hexastack.Base.Tests.{if◌then◌else◌, Bool-cases}
use hexastack.Base.Lists.{All, length}
use Prim.Native.Nat.{suc}

-- `lt y x` is the comparison of the sort keys, `key(y) < key(x)`.
module _ {ℓ} {A : Type ℓ} (lt : A → A → Bool) where
  unfoldable pub insert_by : A → List A → List A
  insert_by x [] = x ∷ []
  insert_by x (y ∷ ys) = if lt y x then y ∷ insert_by x ys else x ∷ y ∷ ys

  unfoldable pub sort_by : List A → List A
  unfolding insert_by
  sort_by [] = []
  sort_by (x ∷ xs) = insert_by x (sort_by xs)

  pub insert_by-perm : (x : A) (xs : List A) → Perm (insert_by x xs) (x ∷ xs)
  unfolding insert_by
  insert_by-perm x [] = Perm.refl (x ∷ [])
  insert_by-perm x (y ∷ ys) = elim (Bool-cases (lt y x)) [
    | inl e ↦ rw e (Perm.trans (Perm.cons y (insert_by-perm x ys)) (Perm.swap x y ys))
    | inr e ↦ rw e (Perm.refl (x ∷ y ∷ ys))
  ]

  -- Sorting only permutes.
  pub sort_by-perm : (xs : List A) → Perm (sort_by xs) xs
  unfolding sort_by
  sort_by-perm [] = Perm.refl []
  sort_by-perm (x ∷ xs) = Perm.trans (insert_by-perm x (sort_by xs)) (Perm.cons x (sort_by-perm xs))

  length-insert_by : (x : A) (xs : List A) → length (insert_by x xs) ≡ suc (length xs)
  unfolding insert_by
  length-insert_by x [] = refl
  length-insert_by x (y ∷ ys) = ground (arith, length-insert_by x ys)

  pub length-sort_by : (xs : List A) → length (sort_by xs) ≡ length xs
  unfolding sort_by
  length-sort_by [] = refl
  length-sort_by (x ∷ xs) = length-insert_by x (sort_by xs) ∙ ap suc (length-sort_by xs)

  -- No element is below the one before it.
  abbrev pub IsSorted : List A → Type ℓ
  IsSorted [] = Unit
  IsSorted (x ∷ xs) = All (λ y. lt y x ≡ false) xs × IsSorted xs

module _ {ℓ} {A : Type ℓ} (lt : A → A → Bool) where
  insert_by-All {κ} :
      (P : A → Type κ) (x : A) (xs : List A) → P x → All P xs → All P (insert_by lt x xs)
  unfolding insert_by
  insert_by-All P x [] p h = (p, tt)
  insert_by-All P x (y ∷ ys) p h = elim (Bool-cases (lt y x)) [
    | inl e ↦ rw e (h.0, insert_by-All P x ys p h.1)
    | inr e ↦ rw e (p, h)
  ]

  -- What holds of every element holds of every element of the sorted list.
  pub sort_by-All {κ} : (P : A → Type κ) (xs : List A) → All P xs → All P (sort_by lt xs)
  unfolding sort_by
  sort_by-All P [] h = tt
  sort_by-All P (x ∷ xs) h = insert_by-All P x (sort_by lt xs) h.0 (sort_by-All P xs h.1)

module _ {ℓ κ} {A : Type ℓ} (lt : A → A → Bool) (P : A → Type κ) where
  All-insert_by : (x : A) (xs : List A) → All P (insert_by lt x xs) → P x × All P xs
  unfolding insert_by
  All-insert_by x [] h = h
  All-insert_by x (y ∷ ys) h = elim (Bool-cases (lt y x)) [
    | inl e ↦
        let h' : All P (y ∷ insert_by lt x ys) = rw (e, insert_by) at h in
        let r = All-insert_by x ys h'.1 in (r.0, (h'.0, r.1))
    | inr e ↦ let h' : All P (x ∷ y ∷ ys) = rw (e, insert_by) at h in h'
  ]

  -- And the other way round.
  pub All-sort_by : (xs : List A) → All P (sort_by lt xs) → All P xs
  unfolding sort_by
  All-sort_by [] h = tt
  All-sort_by (x ∷ xs) h = let r = All-insert_by x (sort_by lt xs) h in (r.0, All-sort_by xs r.1)

pub sort_by-nil {ℓ} : {A : Type ℓ} (lt : A → A → Bool) (xs : List A) → sort_by lt xs ≡ [] → xs ≡ []
sort_by-nil lt [] e = refl
sort_by-nil lt (x ∷ xs) e = absurd (All-sort_by lt (λ _. ⊥) (x ∷ xs) (rw e tt)).0

-- The order that sort keys give: asymmetric, and "not below" is transitive.
pub record IsKeyOrder {ℓ} {A : Type ℓ} (lt : A → A → Bool) : Type ℓ where
  pub asym : (x y : A) → lt x y ≡ true → lt y x ≡ false
  pub trans : (x y z : A) → lt x y ≡ false → lt y z ≡ false → lt x z ≡ false

module _ {ℓ} {A : Type ℓ} (lt : A → A → Bool) (o : IsKeyOrder lt) where
  All-trans :
      (x y : A) (xs : List A)
      → lt y x ≡ false
      → All (λ z. lt z y ≡ false) xs
      → All (λ z. lt z x ≡ false) xs
  All-trans x y [] e h = tt
  All-trans x y (z ∷ xs) e h = (o.trans z y x h.0 e, All-trans x y xs e h.1)

  insert_by-IsSorted : (x : A) (xs : List A) → IsSorted lt xs → IsSorted lt (insert_by lt x xs)
  unfolding insert_by
  insert_by-IsSorted x [] s = (tt, tt)
  insert_by-IsSorted x (y ∷ ys) s = elim (Bool-cases (lt y x)) [
    | inl e ↦ rw e (
      insert_by-All lt (λ z. lt z y ≡ false) x ys (o.asym y x e) s.0,
      insert_by-IsSorted x ys s.1,
    )
    | inr e ↦ rw e ((e, All-trans x y ys e s.0), s)
  ]

  -- Sorting sorts.
  pub sort_by-IsSorted : (xs : List A) → IsSorted lt (sort_by lt xs)
  unfolding sort_by
  sort_by-IsSorted [] = tt
  sort_by-IsSorted (x ∷ xs) = insert_by-IsSorted x (sort_by lt xs) (sort_by-IsSorted xs)

  -- No element is below the first of the sorted list.
  pub sort_by-head :
      (xs : List A) {h : A} {r : List A} → sort_by lt xs ≡ h ∷ r → All (λ c. lt c h ≡ false) xs
  sort_by-head xs {h} {r} e =
      let s : IsSorted lt (h ∷ r) = rw e at (sort_by-IsSorted xs) in
      All-sort_by lt (λ c. lt c h ≡ false) xs (rw e (irrefl, s.0))
    where
      irrefl : lt h h ≡ false
      irrefl = elim (Bool-cases (lt h h)) [ inl p ↦ o.asym h h p | inr p ↦ p ]
