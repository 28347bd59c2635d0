-- ===== src/Core/Cache/Tests.antt =====
-- Runs of the cache, and the theorems at concrete stores.
use hexastack.Base.{ℕ, ◌≡◌, refl, none, some, List, [], ◌∷◌, arith, String_discrete}
use hexastack.Dict.{string_key}
use hexastack.Core.Cache.{Store, Call, gets, checks, sets, deletes, run}
use hexastack.Core.Cache.Visible.{visible, writes, reads_invisible}

abbrev calls : List (ℕ × Call ℕ)
calls =
    (1, sets "a" 10 (some 5))
    ∷ (2, sets "b" 20 none)
    ∷ (9, gets "a" 0)
    ∷ (9, checks "b")
    ∷ (10, deletes "b")
    ∷ (11, sets "b" 21 (some 100))
    ∷ []

run-calls : run [] calls ≡ ("b", (21, some 111)) ∷ []
unfolding run String_discrete
run-calls = refl

abbrev store : Store ℕ
store = ("a", (10, some 5)) ∷ ("b", (20, none)) ∷ []

reads_invisible_example : visible 12 (run [] calls) "b" ≡ visible 12 (run [] (writes calls)) "b"
reads_invisible_example = reads_invisible 12 calls [] "b" (omega arith)
