-- ===== src/Cqrs/Caching/Tests.antt =====
-- A run of the middleware, and the theorem at concrete keys.
use text.Mathlib.TextEquality.{eq_iff}
use hexastack.Base.{ℕ, String, none, some, List, [], ◌∷◌, ◌≡◌, ◌≢◌, refl, inl, inr, arith}
use hexastack.Base.Outcome.{returned}
use hexastack.Dict.{lookup, string_key}
use hexastack.Cqrs.Middleware.{coroutine, awaitable, drive}
use hexastack.Cqrs.Caching.{
  Entry, result, keys, CacheStore, QueryCache, World, store_result, cache_invalidation,
  invalidate_tags,
}
use hexastack.Cqrs.Caching.Invalidation.{store_all, invalidate-store_result}

abbrev tag_key : String → String
tag_key t = t

abbrev cached : CacheStore ℕ
cached = ("q", (some (result 4), none)) ∷ ("users", (some (keys ("q" ∷ [])), none)) ∷ []

-- A command that answers with a coroutine leaves the cache as it was.
awaited_command :
    drive (
      cache_invalidation {V = ℕ} {W = ℕ} tag_key 9
        (λ (m : ℕ). some ("users" ∷ []))
        2
        (λ m x. (returned (some (awaitable coroutine (λ y. (returned none, y)))), x))
        (cached, 7))
    ≡ (returned none, (cached, 7))
unfolding cache_invalidation drive
awaited_command = refl

abbrev users_query : QueryCache
users_query = record { cache_key = "q"; ttl = some 60; tags = "roles" ∷ "users" ∷ [] }

abbrev others : List (QueryCache × Entry ℕ × ℕ)
others = (record users_query { cache_key = "p" }, result 3, 20) ∷ (users_query, result 5, 25) ∷ []

abbrev world : World ℕ ℕ
world = (cached, 7)

p-ne-users : ◌≢◌ {A = String} "p" "users"
p-ne-users = ground (arith, eq_iff "p" "users")

q-ne-users : ◌≢◌ {A = String} "q" "users"
q-ne-users = ground (arith, eq_iff "q" "users")

invalidate-store_result_example :
    lookup "q" (
      invalidate_tags tag_key
        ("users" ∷ "posts" ∷ [])
        30
        (store_all tag_key others (store_result tag_key 10 users_query (result 4) world)).0)
    ≡ none
invalidate-store_result_example =
    invalidate-store_result tag_key "users" users_query (result 4) 10 30 others ("posts" ∷ []) world
      (inr (inl refl)) (p-ne-users, (q-ne-users, tt))
