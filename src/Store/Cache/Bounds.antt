-- ===== src/Store/Cache/Bounds.antt =====
-- internal/store/cache.go: the sizes of the caches, and what is served after an entry was cached.
use d_api.Base.{
  length, ℕ, ◌+◌, ◌≤◌, ◌<◌, String, ◌≡◌, ◌≢◌, ◌⊎◌, none, some, List, [], ◌∷◌, arith, string_key,
  leb, if◌then◌else◌,
}
use d_api.Base.Maps.{lookup, lookup-insert, length-insert}
use d_api.Core.{ApiKey, Upstream}
use d_api.Store.Cache.{
  Caches, AuthCacheEntry, RouteCacheKey, route_key, cached_api_key, cache_api_key, cache_routes,
  cache_max_attempts, invalidate_auth_cache, invalidate_route_cache, invalidate_max_attempts_cache,
  auth_cache_ttl, route_cache_ttl,
}

-- A call that changes the caches.
pub data Call : Type 0 where
  keep_key : String → ApiKey → ℕ → ℕ → Call
  keep_routes : RouteCacheKey → List Upstream → ℕ → ℕ → Call
  keep_attempts : ℕ → ℕ → ℕ → Call
  forget_keys forget_routes forget_attempts : Call

pub exec : Call → Caches → Caches
exec (Call.keep_key hash key now generation) s = cache_api_key hash key now generation s
exec (Call.keep_routes key upstreams now generation) s = cache_routes key upstreams now generation s
exec (Call.keep_attempts value now generation) s = cache_max_attempts value now generation s
exec Call.forget_keys s = invalidate_auth_cache s
exec Call.forget_routes s = invalidate_route_cache s
exec Call.forget_attempts s = invalidate_max_attempts_cache s

unfoldable pub exec_all : List Call → Caches → Caches
exec_all [] s = s
exec_all (c ∷ cs) s = exec_all cs (exec c s)

abbrev pub IsBounded : Caches → Type 0
IsBounded s = (length s.auth_cache ≤ 4096) × (length s.route_cache ≤ 1024)

exec-IsBounded : (c : Call) (s : Caches) → IsBounded s → IsBounded (exec c s)
unfolding exec cache_api_key cache_routes cache_max_attempts invalidate_auth_cache
    invalidate_route_cache invalidate_max_attempts_cache
exec-IsBounded (Call.keep_key hash key now generation) s b = ground (
  arith,
  length-insert hash (record { key = key; expires = now + auth_cache_ttl })
      (if leb 4096 (length s.auth_cache) then [] else s.auth_cache),
)
exec-IsBounded (Call.keep_routes key upstreams now generation) s b = ground (
  arith,
  length-insert key (record { upstreams = upstreams; expires = now + route_cache_ttl })
      (if leb 1024 (length s.route_cache) then [] else s.route_cache),
)
exec-IsBounded (Call.keep_attempts value now generation) s b = ground arith
exec-IsBounded Call.forget_keys s b = ground arith
exec-IsBounded Call.forget_routes s b = ground arith
exec-IsBounded Call.forget_attempts s b = ground arith

-- Whatever is cached and invalidated, the caches that start within their bounds hold at most 4096
-- keys and 1024 routes.
pub exec_all-IsBounded : (cs : List Call) (s : Caches) → IsBounded s → IsBounded (exec_all cs s)
unfolding exec_all
exec_all-IsBounded [] s b = b
exec_all-IsBounded (c ∷ cs) s b = exec_all-IsBounded cs (exec c s) (exec-IsBounded c s b)

-- Caching a key under a generation that is no longer current changes no answer. Otherwise its hash
-- is served with that key until five seconds later and not after, and every other hash is served as
-- before or not at all.
pub cached_api_key_after :
    (hash asked : String) (key : ApiKey) (now later generation : ℕ) (s : Caches)
    → let after = cached_api_key asked later (cache_api_key hash key now generation s) in
      let before = cached_api_key asked later s in
      (s.auth_gen ≢ generation → after ≡ before)
      × (s.auth_gen ≡ generation → asked ≡ hash → later < now + 5000000000 → after.0 ≡ some key)
      × (s.auth_gen ≡ generation → asked ≡ hash → now + 5000000000 ≤ later → after.0 ≡ none)
      × (asked ≢ hash → (after.0 ≡ before.0) ⊎ (after.0 ≡ none))
unfolding cache_api_key cached_api_key lookup
cached_api_key_after hash asked key now later generation s = ground (
  arith,
  string_key.same_iff hash asked,
  lookup-insert {V = AuthCacheEntry} hash asked
      (record { key = key; expires = now + auth_cache_ttl }) [],
  lookup-insert {V = AuthCacheEntry} hash asked
      (record { key = key; expires = now + auth_cache_ttl }) s.auth_cache,
)
