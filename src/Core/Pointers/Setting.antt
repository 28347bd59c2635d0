-- ===== src/Core/Pointers/Setting.antt =====
-- What `set_pointer` sets, `resolve_pointer` finds.
use mathlib.Core.Path.{subst}
use hexastack.Base.{
  ℕ, zero, suc, false, Option, none, some, List, [], ◌∷◌, ◌≡◌, ◌≢◌, refl, ap, arith, Bool-cases,
  ◌⊎◌, inl, inr, All,
}
use hexastack.Base.Int.{ℤ, pos, negsuc}
use hexastack.Base.Outcome.{Done, returned}
use hexastack.Base.Text.{Text, same, int, isdigit, same_refl}
use hexastack.Core.Pointers.Escaping.{join_pointer, split_pointer-join}
use hexastack.Core.Pointers.{
  Doc, null, scalar, arr, obj, Items, nil, cons, Fields, end, field, item, put_item, value,
  put_value, pad, resolve, resolve_mapping_step, resolve_sequence_step, resolve_index,
  set_terminal_value, set_index, child, fresh, or_null, in_item, into_nth, into_index, navigate,
  set_segments, set_split, split_pointer, set_pointer, resolve_pointer,
}

-- A segment that is a key or an index from the front: neither "-" nor a negative number.
abbrev pub IsPlain : Text → Type 0
IsPlain seg = (same seg (b'-' ∷ []) ≡ false) × ((n : ℕ) → int seg ≢ some (negsuc n))

value-put_value : (k : Text) (v : Doc) (fs : Fields) → value k (put_value k v fs) ≡ some v
value-put_value k v end = rw (same_refl k) refl
value-put_value k v (field j d fs) = elim (Bool-cases (same k j)) [
  | inl e ↦ rw (e, e) refl
  | inr e ↦ rw (e, e) (value-put_value k v fs)
]

item-put_item-pad :
    (n : ℕ) (v filler : Doc) (ds : Items) → item n (put_item n v (pad n filler ds)) ≡ some v
unfolding pad
item-put_item-pad zero v filler nil = refl
item-put_item-pad zero v filler (cons d ds) = refl
item-put_item-pad (suc n) v filler nil = item-put_item-pad n v filler nil
item-put_item-pad (suc n) v filler (cons d ds) = item-put_item-pad n v filler ds

index_cases :
    (o : Option ℤ) → (o ≡ none) ⊎ ((n : ℕ) × (o ≡ some (pos n))) ⊎ ((n : ℕ) × (o ≡ some (negsuc n)))
index_cases none = inl refl
index_cases (some (pos n)) = inr (inl (n, refl))
index_cases (some (negsuc n)) = inr (inr (n, refl))

-- `resolve` at an index, after a write at the same index.
resolve_arr :
    (seg : Text) (segs : List Text) (n : ℕ) (d filler v : Doc) (ds : Items)
    → int seg ≡ some (pos n)
    → resolve none segs d ≡ returned v
    → resolve none (seg ∷ segs) (arr (put_item n d (pad n filler ds))) ≡ returned v
unfolding resolve resolve_sequence_step resolve_index
resolve_arr seg segs n d filler v ds e h = rw (e, item-put_item-pad n d filler ds) h

resolve_obj :
    (seg : Text) (segs : List Text) (d v : Doc) (fs : Fields)
    → resolve none segs d ≡ returned v
    → resolve none (seg ∷ segs) (obj (put_value seg d fs)) ≡ returned v
unfolding resolve resolve_mapping_step
resolve_obj seg segs d v fs h = rw (value-put_value seg d fs) h

set_index-resolve :
    (seg : Text) (v : Doc) (ds : Items) (doc' : Doc)
    → ((n : ℕ) → int seg ≢ some (negsuc n))
    → set_index (int seg) v ds ≡ (returned tt, doc')
    → resolve none (seg ∷ []) doc' ≡ returned v
unfolding set_index resolve
set_index-resolve seg v ds doc' plain h = elim (index_cases (int seg)) [
  | inl e ↦ absurd (ground (arith, rw e at h))
  | inr (inl (n, e)) ↦
      subst (λ d. resolve none (seg ∷ []) d ≡ returned v) (ap (λ r. r.1) (rw e at h))
        (resolve_arr seg [] n v null v ds e refl)
  | inr (inr (n, e)) ↦ absurd (plain n e)
]

set_terminal_value-resolve :
    (seg : Text) (v doc doc' : Doc)
    → IsPlain seg
    → set_terminal_value seg v doc ≡ (returned tt, doc')
    → resolve none (seg ∷ []) doc' ≡ returned v
unfolding set_terminal_value resolve
set_terminal_value-resolve seg v (obj fs) doc' plain h =
    subst (λ d. resolve none (seg ∷ []) d ≡ returned v) (ap (λ r. r.1) h)
      (resolve_obj seg [] v v fs refl)
set_terminal_value-resolve seg v (arr ds) doc' plain h =
    set_index-resolve seg v ds doc' plain.1 (rw (plain.0) at h)
set_terminal_value-resolve seg v null doc' plain h = absurd (ground (arith, h))
set_terminal_value-resolve seg v (scalar n) doc' plain h = absurd (ground (arith, h))

module _ (next : Text) (segs : List Text) (v : Doc) (go : Doc → Done × Doc)
    (later : (d d' : Doc)
      → go d ≡ (returned tt, d')
      → resolve none (next ∷ segs) d' ≡ returned v) where
  later-resolve :
      (d : Doc) → (go d).0 ≡ returned tt → resolve none (next ∷ segs) (go d).1 ≡ returned v
  later-resolve d e = later d (go d).1 (ap (λ r. (r, (go d).1)) e)

  into_index-resolve :
      (seg : Text) (ds : Items) (doc' : Doc)
      → ((n : ℕ) → int seg ≢ some (negsuc n))
      → into_index (int seg) next go ds ≡ (returned tt, doc')
      → resolve none (seg ∷ next ∷ segs) doc' ≡ returned v
  unfolding into_index into_nth
  into_index-resolve seg ds doc' plain h = elim (index_cases (int seg)) [
    | inl e ↦ absurd (ground (arith, rw e at h))
    | inr (inl (n, e)) ↦
        let c = or_null (item n (pad n (fresh next) ds)) in
        let h' : in_item n (pad n (fresh next) ds) (go c) ≡ (returned tt, doc') = rw e at h in
        subst (λ d. resolve none (seg ∷ next ∷ segs) d ≡ returned v) (ap (λ r. r.1) h')
          (resolve_arr seg (next ∷ segs) n (go c).1 (fresh next) v ds e
            (later-resolve c (ap (λ r. r.0) h')))
    | inr (inr (n, e)) ↦ absurd (plain n e)
  ]

  navigate-resolve :
      (seg : Text) (doc doc' : Doc)
      → IsPlain seg
      → navigate seg next go doc ≡ (returned tt, doc')
      → resolve none (seg ∷ next ∷ segs) doc' ≡ returned v
  unfolding navigate
  navigate-resolve seg (obj fs) doc' plain h =
      let c = child next (value seg fs) in
      subst (λ d. resolve none (seg ∷ next ∷ segs) d ≡ returned v) (ap (λ r. r.1) h)
        (resolve_obj seg (next ∷ segs) (go c).1 v fs (later-resolve c (ap (λ r. r.0) h)))
  navigate-resolve seg (arr ds) doc' plain h = into_index-resolve seg ds doc' plain.1 h
  navigate-resolve seg null doc' plain h = absurd (ground (arith, h))
  navigate-resolve seg (scalar n) doc' plain h = absurd (ground (arith, h))

resolve-set_segments :
    (seg : Text) (segs : List Text) (v doc doc' : Doc)
    → All IsPlain (seg ∷ segs)
    → set_segments seg segs v doc ≡ (returned tt, doc')
    → resolve none (seg ∷ segs) doc' ≡ returned v
unfolding set_segments
resolve-set_segments seg [] v doc doc' plain h = set_terminal_value-resolve seg v doc doc' plain.0 h
resolve-set_segments seg (next ∷ segs) v doc doc' plain h =
    navigate-resolve next segs v (set_segments next segs v)
      (λ d d' e. resolve-set_segments next segs v d d' plain.1 e) seg doc doc' plain.0 h

set_segments_new :
    (seg : Text) (segs : List Text) (v : Doc)
    → All (λ s. isdigit s ≡ false) segs
    → (set_segments seg segs v (obj end)).0 ≡ returned tt
unfolding set_segments set_terminal_value navigate
set_segments_new seg [] v h = refl
set_segments_new seg (next ∷ segs) v h = rw (h.0) (set_segments_new next segs v h.1)

-- Where `set_pointer` ends without an error on a pointer with plain segments, `resolve_pointer` finds the
-- value at the pointer, in the document as it is then.
resolve-set_pointer :
    (doc doc' v : Doc) (pointer : Text) (segs : List Text)
    → split_pointer pointer ≡ returned segs
    → All IsPlain segs
    → set_pointer doc pointer v ≡ (returned tt, doc')
    → resolve_pointer doc' pointer none ≡ returned v
unfolding set_pointer resolve_pointer set_split
resolve-set_pointer doc doc' v pointer [] e plain h = absurd (ground (arith, rw e at h))
resolve-set_pointer doc doc' v pointer (seg ∷ segs) e plain h =
    rw e (resolve-set_segments seg segs v doc doc' plain (rw e at h))

-- On an empty dict, `set_pointer` at a pointer that is built from one or more keys, plain and after the
-- first one not all digits, ends without an error, and `resolve_pointer` finds the value there.
pub set_pointer_new :
    (key : Text) (keys : List Text) (v : Doc)
    → All IsPlain (key ∷ keys)
    → All (λ s. isdigit s ≡ false) keys
    → (doc' : Doc) × (set_pointer (obj end) (join_pointer (key ∷ keys)) v ≡ (returned tt, doc'))
      × (resolve_pointer doc' (join_pointer (key ∷ keys)) none ≡ returned v)
unfolding set_pointer set_split
set_pointer_new key keys v plain names =
    let r = set_segments key keys v (obj end) in
    let pointer = join_pointer (key ∷ keys) in
    let whole : set_pointer (obj end) pointer v ≡ (returned tt, r.1) =
      rw (split_pointer-join (key ∷ keys))
        (ap (λ x. (x, r.1)) (set_segments_new key keys v names)) in
    (
      r.1,
      whole,
      resolve-set_pointer (obj end) r.1 v pointer (key ∷ keys) (split_pointer-join (key ∷ keys))
          plain whole,
    )
