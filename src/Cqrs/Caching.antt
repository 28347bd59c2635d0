-- ===== src/Cqrs/Caching.antt =====
-- packages/hexastack_cqrs/src/hexastack_cqrs/infra/middleware/caching.py on the cache in memory. What the
-- decorators put on a message's class, with the cache key and the tags of the message rendered, is a
-- parameter; `tag_key` writes a tag's key. The clock does not move during a call of a middleware.
pub mod Tags
pub mod Invalidation
mod Tests
use hexastack.Base.{
  ℕ, String, Bool, true, false, Option, none, some, List, [], ◌∷◌, ◌++◌, if◌then◌else◌,
  String_discrete, ite,
}
use hexastack.Base.Outcome.{Outcome, returned, raised, interrupted}
use hexastack.Core.Cache
use hexastack.Core.Cache.{Store}
use hexastack.Core.Registry.{Action, Handler}
use hexastack.Cqrs.Buses.{Middleware}
use hexastack.Cqrs.Middleware.{coroutine, other_kind, Answer, plain, awaitable}

-- What is cached: results, the lists of keys under the tags, and awaitables themselves.
pub data Entry (V : Type 0) : Type 0 where
  result : V → Entry V
  keys : List String → Entry V
  unawaited : Entry V

-- `None` is what `get` gives where there is nothing.
abbrev pub CacheStore : Type 0 → Type 0
CacheStore V = Store (Option (Entry V))

-- `QueryCacheMetadata` of a query, with its key.
pub record QueryCache : Type 0 where
  pub cache_key : String
  pub ttl : Option ℕ
  pub tags : List String

-- `existing.add(k)` on a set that is kept as a list.
pub add_key : String → List String → List String
add_key k [] = k ∷ []
add_key k (j ∷ js) = ite (String_discrete k j) (j ∷ js) (j ∷ add_key k js)

module _ {V : Type 0} where
  -- `get(tag_key) or []`
  abbrev listed : Option (Entry V) → List String
  listed none = []
  listed (some (result v)) = []
  listed (some (keys ks)) = ks
  listed (some unawaited) = []

  pub delete_all : List String → CacheStore V → CacheStore V
  delete_all [] s = s
  delete_all (k ∷ ks) s = delete_all ks (Cache.delete k s).1

  pub purge : String → List String → CacheStore V → CacheStore V
  unfolding delete_all
  purge key [] s = s
  purge key (k ∷ ks) s = (Cache.delete key (delete_all (k ∷ ks) s)).1

module _ {V : Type 0} (tag_key : String → String) where
  -- One round of `_record_tags_sync`.
  record_tag : String → String → ℕ → CacheStore V → CacheStore V
  record_tag cache_key tag now s =
      let (e, s') = Cache.get (tag_key tag) none now s in
      Cache.set (tag_key tag) (some (keys (add_key cache_key (listed e)))) none now s'

  pub record_tags : String → List String → ℕ → CacheStore V → CacheStore V
  unfolding record_tag
  record_tags cache_key [] now s = s
  record_tags cache_key (tag ∷ tags) now s =
      record_tags cache_key tags now (record_tag cache_key tag now s)

  -- One round of `_invalidate_tags_sync`.
  invalidate_tag : String → ℕ → CacheStore V → CacheStore V
  unfolding purge
  invalidate_tag tag now s =
      let (e, s') = Cache.get (tag_key tag) none now s in purge (tag_key tag) (listed e) s'

  pub invalidate_tags : List String → ℕ → CacheStore V → CacheStore V
  unfolding invalidate_tag
  invalidate_tags [] now s = s
  invalidate_tags (tag ∷ tags) now s = invalidate_tags tags now (invalidate_tag tag now s)

-- The world of a message: the cache, and what the handlers act on.
abbrev pub World : Type 0 → Type 0 → Type 0
World V W = CacheStore V × W

module _ {V W : Type 0} (tag_key : String → String) (now : ℕ) where
  -- A result is stored, and its tags are recorded, if it is no coroutine.
  pub store_result : QueryCache → Entry V → World V W → World V W
  unfolding record_tags
  store_result q r (s, w) =
      (record_tags tag_key q.cache_key q.tags now (Cache.set q.cache_key (some r) q.ttl now s), w)

  -- `_await_and_cache` stores the result and records no tags.
  await_and_cache :
      QueryCache → Outcome (Option (Entry V)) × World V W → Outcome (Option (Entry V)) × World V W
  await_and_cache q (returned none, x) = (returned none, x)
  await_and_cache q (returned (some r), (s, w)) =
      (returned (some r), (Cache.set q.cache_key (some r) q.ttl now s, w))
  await_and_cache q (raised e, x) = (raised e, x)
  await_and_cache q (interrupted, x) = (interrupted, x)

  missed :
      QueryCache
      → Outcome (Option (Answer (Entry V) (World V W))) × World V W
      → Outcome (Option (Answer (Entry V) (World V W))) × World V W
  unfolding store_result await_and_cache
  missed q (returned none, x) = (returned none, x)
  missed q (returned (some (plain r)), x) = (returned (some (plain r)), store_result q r x)
  missed q (returned (some (awaitable coroutine c)), x) =
      (returned (some (awaitable coroutine (λ y. await_and_cache q (c y)))), x)
  missed q (returned (some (awaitable other_kind c)), x) =
      (returned (some (awaitable other_kind c)), store_result q unawaited x)
  missed q (raised e, x) = (raised e, x)
  missed q (interrupted, x) = (interrupted, x)

  looked_up :
      {M : Type 0}
      → QueryCache
      → Option (Entry V)
      → Handler M (Answer (Entry V) (World V W)) (World V W)
      → Handler M (Answer (Entry V) (World V W)) (World V W)
  unfolding missed
  looked_up q (some r) next_call instance_ x = (returned (some (plain r)), x)
  looked_up q none next_call instance_ x = missed q (next_call instance_ x)

  cached_query :
      {M : Type 0} → Option QueryCache → Middleware M (Answer (Entry V) (World V W)) (World V W)
  unfolding looked_up
  cached_query none instance_ next_call x = next_call instance_ x
  cached_query (some q) instance_ next_call (s, w) =
      let (e, s') = Cache.get q.cache_key none now s in looked_up q e next_call instance_ (s', w)

  -- `QueryCachingMiddleware.__call__`; `metadata` is `None` for a message that is no cached query.
  pub query_caching :
      {M : Type 0}
      → (M → Option QueryCache)
      → Middleware M (Answer (Entry V) (World V W)) (World V W)
  unfolding cached_query
  query_caching metadata instance_ next_call x =
      cached_query (metadata instance_) instance_ next_call x

  -- With the cache in memory, the invalidation that follows the result of a coroutine does nothing: it is
  -- for asynchronous caches only.
  succeeded :
      List String
      → Outcome (Option (Answer (Entry V) (World V W))) × World V W
      → Outcome (Option (Answer (Entry V) (World V W))) × World V W
  unfolding invalidate_tags
  succeeded tags (returned none, (s, w)) = (returned none, (invalidate_tags tag_key tags now s, w))
  succeeded tags (returned (some (plain r)), (s, w)) =
      (returned (some (plain r)), (invalidate_tags tag_key tags now s, w))
  succeeded tags (returned (some (awaitable coroutine c)), x) =
      (returned (some (awaitable coroutine c)), x)
  succeeded tags (returned (some (awaitable other_kind c)), (s, w)) =
      (returned (some (awaitable other_kind c)), (invalidate_tags tag_key tags now s, w))
  succeeded tags (raised e, x) = (raised e, x)
  succeeded tags (interrupted, x) = (interrupted, x)

  invalidating :
      {M : Type 0} → Option (List String) → Middleware M (Answer (Entry V) (World V W)) (World V W)
  unfolding succeeded
  invalidating none instance_ next_call x = next_call instance_ x
  invalidating (some tags) instance_ next_call x = succeeded tags (next_call instance_ x)

  -- `CommandCacheInvalidationMiddleware.__call__`
  pub cache_invalidation :
      {M : Type 0}
      → (M → Option (List String))
      → Middleware M (Answer (Entry V) (World V W)) (World V W)
  unfolding invalidating
  cache_invalidation metadata instance_ next_call x =
      invalidating (metadata instance_) instance_ next_call x
