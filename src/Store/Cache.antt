-- ===== src/Store/Cache.antt =====
-- internal/store/cache.go: the caches of API keys, routes and the attempts setting. A generation
-- counts the invalidations, and a result is cached only if no invalidation came since it was asked.
-- Values are immutable here, so `cloneAPIKey` and `cloneUpstreams` leave no trace.
pub mod Fresh
pub mod Bounds
use d_api.Base.{
  length, subst, inl, inr, Bool-cases, Option-cases, ℕ, ◌+◌, String, ◌≡◌, refl, Bool, true, ◌&&◌,
  Option, none, some, List, [], ltb, leb, nat_beq, ◌↔◌, if◌then◌else◌, Key, ◌==◌, nat_key,
  string_key, arith,
}
use d_api.Base.Maps.{Map, lookup, insert}
use d_api.Core.{ApiKey, Upstream}

abbrev pub auth_cache_ttl : ℕ
auth_cache_ttl = 5000000000

abbrev pub route_cache_ttl : ℕ
route_cache_ttl = 2000000000

abbrev pub max_attempts_cache_ttl : ℕ
max_attempts_cache_ttl = 30000000000

abbrev pub max_auth_cache_entries : ℕ
max_auth_cache_entries = 4096

abbrev pub max_route_cache_entries : ℕ
max_route_cache_entries = 1024

pub record AuthCacheEntry : Type 0 where
  pub key : ApiKey
  pub expires : ℕ

pub record RouteCacheKey : Type 0 where
  pub group_id : ℕ
  pub protocol : String
  pub model : String

pub record RouteCacheEntry : Type 0 where
  pub upstreams : List Upstream
  pub expires : ℕ

pub record MaxAttemptsCacheEntry : Type 0 where
  pub value : ℕ
  pub expires : ℕ

-- The part of `Store` under `cacheMu`.
pub record Caches : Type 0 where
  pub auth_cache : Map String AuthCacheEntry
  pub auth_gen : ℕ
  pub route_cache : Map RouteCacheKey RouteCacheEntry
  pub route_gen : ℕ
  pub max_attempts : MaxAttemptsCacheEntry
  pub max_attempts_gen : ℕ

abbrev pub same_route : RouteCacheKey → RouteCacheKey → Bool
same_route j k = j.group_id == k.group_id && (j.protocol == k.protocol && j.model == k.model)

pub same_route_iff : (j k : RouteCacheKey) → (same_route j k ≡ true) ↔ (j ≡ k)
same_route_iff j k = ground (
  arith,
  nat_key.same_iff j.group_id k.group_id,
  string_key.same_iff j.protocol k.protocol,
  string_key.same_iff j.model k.model,
)

instance abbrev pub route_key : Key RouteCacheKey
route_key = record { same = same_route; same_iff = same_route_iff }

abbrev pub no_attempts : MaxAttemptsCacheEntry
no_attempts = record { value = 0; expires = 0 }

-- What `cachedAPIKey` answers of the entry that it finds.
abbrev pub live_key : ℕ → Option AuthCacheEntry → Option ApiKey
live_key now none = none
live_key now (some e) = if ltb now e.expires then some e.key else none

abbrev pub live_routes : ℕ → Option RouteCacheEntry → Option (List Upstream)
live_routes now none = none
live_routes now (some e) = if ltb now e.expires then some e.upstreams else none

-- The value, if there is one, and the generation.
unfoldable pub cached_api_key : String → ℕ → Caches → Option ApiKey × ℕ
cached_api_key hash now s = (live_key now (lookup hash s.auth_cache), s.auth_gen)

unfoldable pub cache_api_key : String → ApiKey → ℕ → ℕ → Caches → Caches
cache_api_key hash key now generation s =
    if nat_beq s.auth_gen generation
    then record s {
      auth_cache =
          insert hash (record { key = key; expires = now + auth_cache_ttl })
            (if leb max_auth_cache_entries (length s.auth_cache) then [] else s.auth_cache);
    }
    else s

unfoldable pub cached_routes : RouteCacheKey → ℕ → Caches → Option (List Upstream) × ℕ
cached_routes key now s = (live_routes now (lookup key s.route_cache), s.route_gen)

unfoldable pub cache_routes : RouteCacheKey → List Upstream → ℕ → ℕ → Caches → Caches
cache_routes key upstreams now generation s =
    if nat_beq s.route_gen generation
    then record s {
      route_cache =
          insert key (record { upstreams = upstreams; expires = now + route_cache_ttl })
            (if leb max_route_cache_entries (length s.route_cache) then [] else s.route_cache);
    }
    else s

-- The value counts only if the test holds.
unfoldable pub cached_max_attempts : ℕ → Caches → (ℕ × Bool) × ℕ
cached_max_attempts now s = (
  (s.max_attempts.value, ltb 0 s.max_attempts.value && ltb now s.max_attempts.expires),
  s.max_attempts_gen,
)

unfoldable pub cache_max_attempts : ℕ → ℕ → ℕ → Caches → Caches
cache_max_attempts value now generation s =
    if nat_beq s.max_attempts_gen generation
    then record s {
      max_attempts = record { value = value; expires = now + max_attempts_cache_ttl };
    }
    else s

unfoldable pub invalidate_auth_cache : Caches → Caches
invalidate_auth_cache s = record s { auth_cache = []; auth_gen = s.auth_gen + 1 }

unfoldable pub invalidate_route_cache : Caches → Caches
invalidate_route_cache s = record s { route_cache = []; route_gen = s.route_gen + 1 }

unfoldable pub invalidate_max_attempts_cache : Caches → Caches
invalidate_max_attempts_cache s = record s {
  max_attempts = no_attempts;
  max_attempts_gen = s.max_attempts_gen + 1;
}
