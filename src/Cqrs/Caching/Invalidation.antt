-- ===== src/Cqrs/Caching/Invalidation.antt =====
-- What an invalidation removes.
use hexastack.Base.{ℕ, String, none, some, List, [], ◌∷◌, ◌≡◌, ◌≢◌, sym, ◌∙◌, All, Member}
use hexastack.Dict.{string_key, lookup, lookup-insert_ne}
use hexastack.Core.Cache
use hexastack.Core.Cache.{set}
use hexastack.Cqrs.Caching.{
  Entry, keys, CacheStore, QueryCache, World, listed, store_result, purge, invalidate_tag,
  invalidate_tags,
}
use hexastack.Cqrs.Caching.Tags.{
  IsTagged, get-none, get-value, record_tags-keeps, record_tags-IsTagged, purge-none, purge-Member,
}

module _ {V : Type 0} (tag_key : String → String) where
  invalidate_tags-none :
      (k : String) (tags : List String) (now : ℕ) (s : CacheStore V)
      → lookup k s ≡ none
      → lookup k (invalidate_tags tag_key tags now s) ≡ none
  unfolding invalidate_tags invalidate_tag
  invalidate_tags-none k [] now s h = h
  invalidate_tags-none k (t ∷ ts) now s h =
      let (e, s') = Cache.get (tag_key t) none now s in
      invalidate_tags-none k ts now (purge (tag_key t) (listed e) s')
        (purge-none tag_key (tag_key t) k (listed e) s' (get-none (tag_key t) k now s h))

  store_result-keeps :
      {W : Type 0} (k tag : String) (q : QueryCache) (r : Entry V) (now : ℕ) (x : World V W)
      → q.cache_key ≢ tag_key tag
      → IsTagged tag_key k tag x.0
      → IsTagged tag_key k tag (store_result tag_key now q r x).0
  unfolding store_result set
  store_result-keeps k tag q r now (s, w) ne (ks, found, l) =
      record_tags-keeps tag_key k q.cache_key tag q.tags now
        (Cache.set q.cache_key (some r) q.ttl now s)
        (ks, lookup-insert_ne (tag_key tag) q.cache_key _ s (λ e. ne (sym e)) ∙ found, l)

  -- The results of queries, each stored at a time of its own.
  pub store_all : {W : Type 0} → List (QueryCache × Entry V × ℕ) → World V W → World V W
  store_all [] x = x
  store_all ((q, r, now) ∷ qs) x = store_all qs (store_result tag_key now q r x)

  store_all-keeps :
      {W : Type 0} (k tag : String) (qs : List (QueryCache × Entry V × ℕ)) (x : World V W)
      → All (λ z. z.0.cache_key ≢ tag_key tag) qs
      → IsTagged tag_key k tag x.0
      → IsTagged tag_key k tag (store_all qs x).0
  unfolding store_all
  store_all-keeps k tag [] x h t = t
  store_all-keeps k tag ((q, r, now) ∷ qs) x h t =
      store_all-keeps k tag qs (store_result tag_key now q r x) h.1
        (store_result-keeps k tag q r now x h.0 t)

  store_result-IsTagged :
      {W : Type 0} (tag : String) (q : QueryCache) (r : Entry V) (now : ℕ) (x : World V W)
      → Member tag q.tags
      → IsTagged tag_key q.cache_key tag (store_result tag_key now q r x).0
  unfolding store_result
  store_result-IsTagged tag q r now (s, w) l =
      record_tags-IsTagged tag_key q.cache_key tag q.tags now _ l

  invalidate-IsTagged :
      (k tag : String) (more : List String) (now : ℕ) (s : CacheStore V)
      → IsTagged tag_key k tag s
      → lookup k (invalidate_tags tag_key (tag ∷ more) now s) ≡ none
  unfolding invalidate_tags invalidate_tag
  invalidate-IsTagged k tag more now s (ks, found, at) =
      let (e, s') = Cache.get (tag_key tag) none now s in
      let same : e ≡ some (keys ks) = get-value (tag_key tag) now s (some (keys ks)) found in
      invalidate_tags-none k more now (purge (tag_key tag) (listed e) s')
        (purge-Member tag_key (tag_key tag) k (listed e) s' (rw same at))

  -- A query's result is stored with its tags, then the results of any number of other queries, or of the
  -- same one, none of which has the key of the tag in question as its cache key. An invalidation that
  -- starts with this tag, which is one of the query's, then leaves nothing under the query's key,
  -- whatever the times and the times to live are.
  pub invalidate-store_result :
      {W : Type 0} (tag : String) (q : QueryCache) (r : Entry V) (now later : ℕ)
      (qs : List (QueryCache × Entry V × ℕ)) (more : List String) (x : World V W)
      → Member tag q.tags
      → All (λ z. z.0.cache_key ≢ tag_key tag) qs
      → lookup q.cache_key (
          invalidate_tags tag_key
            (tag ∷ more)
            later
            (store_all qs (store_result tag_key now q r x)).0)
        ≡ none
  invalidate-store_result tag q r now later qs more x l apart =
      invalidate-IsTagged q.cache_key tag more later _
        (store_all-keeps q.cache_key tag qs _ apart (store_result-IsTagged tag q r now x l))
