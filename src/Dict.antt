-- ===== src/Dict.antt =====
-- A Python dict: its entries in insertion order; assignment to a known key keeps the place.
use mathlib.Core.Logic.{if_pos, if_neg}
use mathlib.Core.Path.{subst}
use hexastack.Base.{
  ℕ, String, ◌≡◌, refl, ap, ◌≢◌, Bool, Option, none, some, List, [], ◌∷◌, ite, arith, is_some,
  String_discrete, ℕ_discrete, All,
}
use hexastack.Base.Text.{Text, Text_discrete}

-- What is used as a key has a decidable equality.
pub record Key {ℓ} (K : Type ℓ) : Type ℓ where
  pub dec : Discrete K

instance abbrev pub string_key : Key String
string_key = record { dec = String_discrete }

instance abbrev pub nat_key : Key ℕ
nat_key = record { dec = ℕ_discrete }

instance abbrev pub text_key : Key Text
text_key = record { dec = Text_discrete }

module _ {ℓ} {A B : Type ℓ} ⦃a : Key A⦄ ⦃b : Key B⦄ where
  unfoldable pub pair_discrete : Discrete (A × B)
  pair_discrete (x, y) (x', y') = elim (a.dec x x') [
    | yes p ↦ elim (b.dec y y') [
      | yes q ↦ yes (λ i. (p i, q i))
      | no n ↦ no (λ e. n (ap (λ z. z.1) e))
    ]
    | no n ↦ no (λ e. n (ap (λ z. z.0) e))
  ]

  instance abbrev pub pair_key : Key (A × B)
  pair_key = record { dec = pair_discrete }

abbrev pub Dict {ℓ} : Type ℓ → Type ℓ → Type ℓ
Dict K V = List (K × V)

module _ {ℓ} {K V : Type ℓ} ⦃key : Key K⦄ where
  -- `d.get(k)`
  abbrev pub lookup : K → Dict K V → Option V
  lookup k [] = none
  lookup k ((j, v) ∷ d) = ite (key.dec k j) (some v) (lookup k d)

  -- `k in d`
  abbrev pub contains : K → Dict K V → Bool
  contains k d = is_some (lookup k d)

  -- `d[k] = v`
  abbrev pub insert : K → V → Dict K V → Dict K V
  insert k v [] = (k, v) ∷ []
  insert k v ((j, w) ∷ d) = ite (key.dec k j) ((k, v) ∷ d) ((j, w) ∷ insert k v d)

  -- `d.pop(k, None)`; every entry with the key goes, and a dict has one at most
  abbrev pub erase : K → Dict K V → Dict K V
  erase k [] = []
  erase k ((j, w) ∷ d) = ite (key.dec k j) (erase k d) ((j, w) ∷ erase k d)

  -- `d.values()`
  abbrev pub values : Dict K V → List V
  values [] = []
  values ((j, w) ∷ d) = w ∷ values d

  pub lookup-insert_self : (k : K) (v : V) (d : Dict K V) → lookup k (insert k v d) ≡ some v
  lookup-insert_self k v [] = if_pos (key.dec k k) refl _ _
  lookup-insert_self k v ((j, w) ∷ d) = ground (arith, lookup-insert_self k v d)

  pub lookup-insert_ne :
      (j k : K) (v : V) (d : Dict K V) → j ≢ k → lookup j (insert k v d) ≡ lookup j d
  lookup-insert_ne j k v [] h = ground arith
  lookup-insert_ne j k v ((i, w) ∷ d) h = ground (arith, lookup-insert_ne j k v d h)

  pub lookup-erase_self : (k : K) (d : Dict K V) → lookup k (erase k d) ≡ none
  lookup-erase_self k [] = refl
  lookup-erase_self k ((j, w) ∷ d) = ground (arith, lookup-erase_self k d)

  pub lookup-erase_ne : (j k : K) (d : Dict K V) → j ≢ k → lookup j (erase k d) ≡ lookup j d
  lookup-erase_ne j k [] h = refl
  lookup-erase_ne j k ((i, w) ∷ d) h = ground (arith, lookup-erase_ne j k d h)

  pub All-insert {μ} :
      (P : V → Type μ) (k : K) (v : V) (d : Dict K V)
      → P v
      → All P (values d)
      → All P (values (insert k v d))
  All-insert P k v [] p h = (p, h)
  All-insert P k v ((j, w) ∷ d) p h = ground (arith, All-insert P k v d p h.1)

  pub All-lookup {μ} :
      (P : V → Type μ) (k : K) (v : V) (d : Dict K V) → lookup k d ≡ some v → All P (values d) → P v
  All-lookup P k v [] e h = cc
  All-lookup P k v ((j, w) ∷ d) e h = ground (arith, All-lookup P k v d)

  -- The entries of a dict have different keys.
  abbrev pub Distinct : Dict K V → Type ℓ
  Distinct [] = Unit
  Distinct ((k, v) ∷ d) = (lookup k d ≡ none) × Distinct d

  pub insert-Distinct : (k : K) (v : V) (d : Dict K V) → Distinct d → Distinct (insert k v d)
  insert-Distinct k v [] h = (refl, tt)
  insert-Distinct k v ((j, w) ∷ d) h =
      ground (arith, insert-Distinct k v d h.1, lookup-insert_ne j k v d)

  pub insert-All {μ} :
      (P : K × V → Type μ) (k : K) (v : V) (d : Dict K V)
      → P (k, v)
      → All P d
      → All P (insert k v d)
  insert-All P k v [] p h = (p, tt)
  insert-All P k v ((j, w) ∷ d) p h = elim (key.dec k j) [
    | yes e ↦ rw (if_pos _ e) (p, h.1)
    | no n ↦ rw (if_neg _ n) (h.0, insert-All P k v d p h.1)
  ]

  pub lookup-All {μ} :
      (P : K × V → Type μ) (k : K) (v : V) (d : Dict K V) → lookup k d ≡ some v → All P d → P (k, v)
  lookup-All P k v [] e h = absurd (ground arith)
  lookup-All P k v ((j, w) ∷ d) e h = elim (key.dec k j) [
    | yes p ↦ subst P (ground arith) h.0
    | no n ↦ lookup-All P k v d (ground arith) h.1
  ]

  lookup_tail :
      (k : K) (v : V) (d es : Dict K V)
      → lookup k d ≡ none
      → All (λ e. lookup e.0 d ≡ some e.1) es
      → All (λ e. lookup e.0 ((k, v) ∷ d) ≡ some e.1) es
  lookup_tail k v d [] h a = tt
  lookup_tail k v d ((j, w) ∷ es) h a = (ground arith, lookup_tail k v d es h a.1)

  -- Every entry is what its key looks up.
  pub entries-lookup : (d : Dict K V) → Distinct d → All (λ e. lookup e.0 d ≡ some e.1) d
  entries-lookup [] h = tt
  entries-lookup ((k, v) ∷ d) h =
      (if_pos (key.dec k k) refl _ _, lookup_tail k v d d h.0 (entries-lookup d h.1))

  pub values-All {μ} : (P : V → Type μ) (d : Dict K V) → All (λ e. P e.1) d → All P (values d)
  values-All P [] h = tt
  values-All P ((k, v) ∷ d) h = (h.0, values-All P d h.1)
