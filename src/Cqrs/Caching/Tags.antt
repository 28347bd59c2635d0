-- ===== src/Cqrs/Caching/Tags.antt =====
-- The lists of keys under the tags.
use mathlib.Core.Path.{subst}
use mathlib.Core.Logic.{if_pos, if_neg}
use hexastack.Base.{
  Option-cases, Member, ℕ, String, Option, none, some, List, [], ◌∷◌, ◌≡◌, ◌⊎◌, inl, inr, refl, ◌∙◌,
  arith, String_discrete,
}
use hexastack.Dict.{
  string_key, lookup, erase, lookup-erase_self, lookup-erase_ne, lookup-insert_self,
  lookup-insert_ne,
}
use hexastack.Core.Cache
use hexastack.Core.Cache.{Store, get, get_found, set, delete}
use hexastack.Cqrs.Caching.{
  Entry, keys, CacheStore, add_key, listed, record_tag, record_tags, delete_all, purge,
}

add_key-Member : (k : String) (js : List String) → Member k (add_key k js)
unfolding add_key
add_key-Member k [] = inl refl
add_key-Member k (j ∷ js) = elim (String_discrete k j) [
  | yes e ↦ rw (if_pos (String_discrete k j) e) (inl e)
  | no n ↦ rw (if_neg (String_discrete k j) n) (inr (add_key-Member k js))
]

Member-tail :
    (k j : String) (js js' : List String)
    → (k ≡ j) ⊎ Member k js
    → (Member k js → Member k js')
    → (k ≡ j) ⊎ Member k js'
Member-tail k j js js' (inl e) f = inl e
Member-tail k j js js' (inr l) f = inr (f l)

add_key-Member_other : (k k' : String) (js : List String) → Member k js → Member k (add_key k' js)
unfolding add_key
add_key-Member_other k k' [] h = elim h [ ]
add_key-Member_other k k' (j ∷ js) h = elim (String_discrete k' j) [
  | yes e ↦ rw (if_pos (String_discrete k' j) e) h
  | no n ↦
      rw (if_neg (String_discrete k' j) n)
        (Member-tail k j js (add_key k' js) h (add_key-Member_other k k' js))
]

module _ {V : Type 0} where
  erase-none : (j k : String) (s : CacheStore V) → lookup k s ≡ none → lookup k (erase j s) ≡ none
  erase-none j k s h = elim (string_key.dec k j) [
    | yes e ↦ rw e (lookup-erase_self j s)
    | no n ↦ lookup-erase_ne k j s n ∙ h
  ]

  pub get-none :
      (j k : String) (now : ℕ) (s : CacheStore V)
      → lookup k s ≡ none
      → lookup k (Cache.get j none now s).1 ≡ none
  unfolding get get_found
  get-none j k now s h = elim (Option-cases (lookup j s)) [
    | inl e ↦ ground (arith, e, h)
    | inr ((v, expiry), e) ↦ ground (arith, e, h, erase-none j k s)
  ]

  -- A look at the cache keeps the entries that do not expire.
  get-lookup :
      (j k : String) (now : ℕ) (s : CacheStore V) (e : Option (Entry V))
      → lookup k s ≡ some (e, none)
      → lookup k (Cache.get j none now s).1 ≡ some (e, none)
  unfolding get get_found
  get-lookup j k now s e h = elim (string_key.dec k j) [
    | yes p ↦ rw (← p) (ground (arith, h))
    | no n ↦ ground (arith, h, lookup-erase_ne k j s n)
  ]

  pub get-value :
      (k : String) (now : ℕ) (s : CacheStore V) (e : Option (Entry V))
      → lookup k s ≡ some (e, none)
      → (Cache.get k none now s).0 ≡ e
  unfolding get get_found
  get-value k now s e h = ground (arith, h)

  delete_all-none :
      (k : String) (ks : List String) (s : CacheStore V)
      → lookup k s ≡ none
      → lookup k (delete_all ks s) ≡ none
  unfolding delete_all delete
  delete_all-none k [] s h = h
  delete_all-none k (j ∷ js) s h = delete_all-none k js (erase j s) (erase-none j k s h)

  delete_all-Member :
      (k : String) (ks : List String) (s : CacheStore V)
      → Member k ks
      → lookup k (delete_all ks s) ≡ none
  unfolding delete_all delete
  delete_all-Member k [] s h = elim h [ ]
  delete_all-Member k (j ∷ js) s (inl e) =
      delete_all-none k js (erase j s) (rw e (lookup-erase_self j s))
  delete_all-Member k (j ∷ js) s (inr l) = delete_all-Member k js (erase j s) l

module _ {V : Type 0} (tag_key : String → String) where
  -- The key stands under the tag.
  abbrev pub IsTagged : String → String → CacheStore V → Type 0
  IsTagged k tag s =
      (ks : List String) × (lookup (tag_key tag) s ≡ some (some (keys ks), none)) × Member k ks

  record_tag-IsTagged :
      (k tag : String) (now : ℕ) (s : CacheStore V)
      → IsTagged k tag (record_tag tag_key k tag now s)
  unfolding record_tag set
  record_tag-IsTagged k tag now s =
      let (e, s') = Cache.get (tag_key tag) none now s in
      (
        add_key k (listed e),
        lookup-insert_self (tag_key tag) (some (keys (add_key k (listed e))), none) s',
        add_key-Member k (listed e),
      )

  record_tag-IsTagged_other :
      (k k' tag tag' : String) (now : ℕ) (s : CacheStore V)
      → IsTagged k tag s
      → IsTagged k tag (record_tag tag_key k' tag' now s)
  unfolding record_tag set
  record_tag-IsTagged_other k k' tag tag' now s (ks, found, l) =
      let (e, s') = Cache.get (tag_key tag') none now s in
      elim (string_key.dec (tag_key tag) (tag_key tag')) [
        | yes p ↦
            let same : e ≡ some (keys ks) =
              get-value (tag_key tag') now s (some (keys ks)) (rw p at found) in
            (
              add_key k' ks,
              rw (same, p)
                  (lookup-insert_self (tag_key tag') (some (keys (add_key k' ks)), none) s'),
              add_key-Member_other k k' ks l,
            )
        | no n ↦ (
          ks,
          lookup-insert_ne (tag_key tag) (tag_key tag') (some (keys (add_key k' (listed e))), none)
                s' n
              ∙ get-lookup (tag_key tag') (tag_key tag) now s (some (keys ks)) found,
          l,
        )
      ]

  pub record_tags-keeps :
      (k k' tag : String) (tags : List String) (now : ℕ) (s : CacheStore V)
      → IsTagged k tag s
      → IsTagged k tag (record_tags tag_key k' tags now s)
  unfolding record_tags
  record_tags-keeps k k' tag [] now s h = h
  record_tags-keeps k k' tag (t ∷ ts) now s h =
      record_tags-keeps k k' tag ts now (record_tag tag_key k' t now s)
        (record_tag-IsTagged_other k k' tag t now s h)

  pub record_tags-IsTagged :
      (k tag : String) (tags : List String) (now : ℕ) (s : CacheStore V)
      → Member tag tags
      → IsTagged k tag (record_tags tag_key k tags now s)
  unfolding record_tags
  record_tags-IsTagged k tag [] now s h = elim h [ ]
  record_tags-IsTagged k tag (t ∷ ts) now s (inl e) =
      record_tags-keeps k k tag ts now (record_tag tag_key k t now s) (
        subst (λ x. IsTagged k tag (record_tag tag_key k x now s)) e
          (record_tag-IsTagged k tag now s))
  record_tags-IsTagged k tag (t ∷ ts) now s (inr l) =
      record_tags-IsTagged k tag ts now (record_tag tag_key k t now s) l

  pub purge-none :
      (key k : String) (ks : List String) (s : CacheStore V)
      → lookup k s ≡ none
      → lookup k (purge key ks s) ≡ none
  unfolding purge delete
  purge-none key k [] s h = h
  purge-none key k (j ∷ js) s h =
      erase-none key k (delete_all (j ∷ js) s) (delete_all-none k (j ∷ js) s h)

  pub purge-Member :
      (key k : String) (ks : List String) (s : CacheStore V)
      → Member k ks
      → lookup k (purge key ks s) ≡ none
  unfolding purge delete
  purge-Member key k [] s h = elim h [ ]
  purge-Member key k (j ∷ js) s l =
      erase-none key k (delete_all (j ∷ js) s) (delete_all-Member k (j ∷ js) s l)
