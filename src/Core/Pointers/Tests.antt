-- ===== src/Core/Pointers/Tests.antt =====
-- Runs on small documents, and the theorems at concrete pointers.
use hexastack.Base.{none, some, [], ◌∷◌, ◌≡◌, refl}
use hexastack.Base.Outcome.{returned, raised, index_error}
use hexastack.Base.Text.{Text, codes, split, replace_pair, int, all_digits}
use hexastack.Core.Pointers.{
  Doc, scalar, arr, obj, nil, cons, end, field, split_pointer, resolve_pointer, set_pointer,
}
use hexastack.Core.Pointers.Escaping.{join_pointer, split_pointer-join}
use hexastack.Core.Pointers.Setting.{IsPlain, set_pointer_new}

abbrev a_b : Text
a_b = codes "a/b~1"

-- A default that is a container is searched for the rest of the pointer.
default_searched :
    resolve_pointer (obj end) (codes "/a/b") (some (obj (field (codes "b") (scalar 1) end)))
    ≡ returned (scalar 1)
unfolding resolve_pointer split_pointer split replace_pair
default_searched = refl

-- Setting at a negative index writes from the end, and raises `IndexError` where there is nothing.
set_negative :
    set_pointer (arr (cons (scalar 1) (cons (scalar 2) nil))) (codes "/-1") (scalar 9)
    ≡ (returned tt, arr (cons (scalar 1) (cons (scalar 9) nil)))
unfolding set_pointer split_pointer split int replace_pair
set_negative = refl

set_negative_empty : set_pointer (arr nil) (codes "/-1") (scalar 9) ≡ (raised index_error, arr nil)
unfolding set_pointer split_pointer split int replace_pair
set_negative_empty = refl

split_pointer-join_example : split_pointer (join_pointer (a_b ∷ [] ∷ [])) ≡ returned (a_b ∷ [] ∷ [])
split_pointer-join_example = split_pointer-join (a_b ∷ [] ∷ [])

a_b-IsPlain : IsPlain a_b
unfolding int
a_b-IsPlain = (refl, λ n e. absurd (cc e))

x-IsPlain : IsPlain (codes "x")
unfolding int
x-IsPlain = (refl, λ n e. absurd (cc e))

two-IsPlain : IsPlain (codes "2")
unfolding int
two-IsPlain = (refl, λ n e. absurd (cc e))

set_pointer_new_example :
    (doc' : Doc) × (set_pointer (obj end) (join_pointer (a_b ∷ codes "x" ∷ [])) (scalar 9)
      ≡ (returned tt, doc'))
    × (resolve_pointer doc' (join_pointer (a_b ∷ codes "x" ∷ [])) none ≡ returned (scalar 9))
unfolding all_digits
set_pointer_new_example =
    set_pointer_new a_b (codes "x" ∷ []) (scalar 9) (a_b-IsPlain, (x-IsPlain, tt)) (refl, tt)
