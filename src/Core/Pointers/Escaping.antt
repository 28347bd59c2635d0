-- ===== src/Core/Pointers/Escaping.antt =====
-- Segments come back from a pointer as they went into it.
use mathlib.Core.List.{append-nil}
use hexastack.Base.{
  ℕ, false, List, [], ◌∷◌, ◌++◌, ◌==◌, ◌≡◌, refl, ap, ◌∙◌, arith, Bool-cases, inl, inr,
}
use hexastack.Base.Outcome.{returned}
use hexastack.Base.Text.{Text, split, replace_char, replace_pair}
use hexastack.Core.Pointers.{escape_pointer, unescape_pointer, split_pointer, unescape_all}

replace_pair-cons :
    (c d x : ℕ) (by s : Text)
    → x == c ≡ false
    → replace_pair c d by (x ∷ s) ≡ x ∷ replace_pair c d by s
unfolding replace_pair
replace_pair-cons c d x by [] h = refl
replace_pair-cons c d x by (y ∷ s) h = ground (arith, h)

-- The tildes.
replace_pair-tilde :
    (s : Text) → replace_pair b'~' b'0' (b'~' ∷ []) (replace_char b'~' (b'~' ∷ b'0' ∷ []) s) ≡ s
unfolding replace_char replace_pair
replace_pair-tilde [] = refl
replace_pair-tilde (x ∷ s) = elim (Bool-cases (x == b'~')) [
  | inl e ↦ let is : x ≡ b'~' = ground arith in rw (e, replace_pair-tilde s) (rw is refl)
  | inr e ↦ rw e (
      replace_pair-cons b'~' b'0' x (b'~' ∷ []) (replace_char b'~' (b'~' ∷ b'0' ∷ []) s) e
      ∙ ap (◌∷◌ x) (replace_pair-tilde s))
]

abbrev tildes : Text → Text
tildes s = replace_char b'~' (b'~' ∷ b'0' ∷ []) s

abbrev slashes : Text → Text
slashes s = replace_char b'/' (b'~' ∷ b'1' ∷ []) s

-- The slashes, after the tildes.
replace_pair-slash : (s : Text) → replace_pair b'~' b'1' (b'/' ∷ []) (slashes (tildes s)) ≡ tildes s
unfolding replace_char replace_pair
replace_pair-slash [] = refl
replace_pair-slash (x ∷ s) =
    let rest = slashes (tildes s) in
    elim (Bool-cases (x == b'~')) [
      | inl e ↦ rw e (
          ap (◌∷◌ b'~') (
            replace_pair-cons b'~' b'1' b'0' (b'/' ∷ []) rest refl
            ∙ ap (◌∷◌ b'0') (replace_pair-slash s)))
      | inr e ↦ elim (Bool-cases (x == b'/')) [
        | inl f ↦
            let is : x ≡ b'/' = ground arith in
            rw (e, f) (rw is (ap (◌∷◌ b'/') (replace_pair-slash s)))
        | inr f ↦
            rw (e, f)
              (replace_pair-cons b'~' b'1' x (b'/' ∷ []) rest e ∙ ap (◌∷◌ x) (replace_pair-slash s))
      ]
    ]

-- Unescaping an escaped segment gives the segment back, whatever it holds.
unescape-escape : (s : Text) → unescape_pointer (escape_pointer s) ≡ s
unfolding unescape_pointer escape_pointer
unescape-escape s = rw (replace_pair-slash s) (replace_pair-tilde s)

-- No slash.
abbrev Free : Text → Type 0
Free [] = Unit
Free (x ∷ s) = (x == b'/' ≡ false) × Free s

Free-slashes : (s : Text) → Free (slashes s)
unfolding replace_char
Free-slashes [] = tt
Free-slashes (x ∷ s) = elim (Bool-cases (x == b'/')) [
  | inl e ↦ rw e (refl, (refl, Free-slashes s))
  | inr e ↦ rw e (e, Free-slashes s)
]

-- `"/" + "/".join(segments)` for segments that are escaped, as `extract_pointers` builds it.
pub join_pointer : List Text → Text
join_pointer [] = []
join_pointer (s ∷ ss) = b'/' ∷ (escape_pointer s ++ join_pointer ss)

split-Free : (s : Text) → Free s → split b'/' s ≡ s ∷ []
unfolding split
split-Free [] h = refl
split-Free (x ∷ s) h = rw (h.0, split-Free s h.1) refl

split-append : (s t : Text) → Free s → split b'/' (s ++ b'/' ∷ t) ≡ s ∷ split b'/' t
unfolding split
split-append [] t h = refl
split-append (x ∷ s) t h = rw (h.0, split-append s t h.1) refl

unescape_all-split :
    (s : Text) (ss : List Text)
    → unescape_all (split b'/' (escape_pointer s ++ join_pointer ss)) ≡ s ∷ ss
unfolding join_pointer escape_pointer
unescape_all-split s [] =
    rw
      (
        append-nil (escape_pointer s),
        split-Free (escape_pointer s) (Free-slashes (tildes s)),
        unescape-escape s,
      )
      refl
unescape_all-split s (t ∷ ss) =
    rw
      (
        split-append (escape_pointer s) (escape_pointer t ++ join_pointer ss)
            (Free-slashes (tildes s)),
        unescape_all-split t ss,
        unescape-escape s,
      )
      refl

-- A pointer that is built from segments, escaped and joined, splits into just these segments.
pub split_pointer-join : (ss : List Text) → split_pointer (join_pointer ss) ≡ returned ss
unfolding split_pointer join_pointer
split_pointer-join [] = refl
split_pointer-join (s ∷ ss) = rw (unescape_all-split s ss) refl
