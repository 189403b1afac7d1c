-- ===== src/Store/Cache/Fresh.antt =====
-- internal/store/cache.go under writers and loaders that interleave, as in `AuthenticateAPIKey`
-- (internal/store/apikeys.go): a miss notes the generation, the query reads the row, and the result
-- is cached; a writer changes the rows and then invalidates.
use d_api.Base.{
  subst, inl, inr, ℕ, ◌+◌, ◌≤◌, String, ◌≡◌, sym, ◌∙◌, ◌⊎◌, Option, none, some, List, [], ◌∷◌, ◌++◌,
  arith, string_key, All,
}
use d_api.Base.Maps.{lookup, lookup-insert}
use d_api.Core.{ApiKey}
use d_api.Store.Cache.{
  Caches, AuthCacheEntry, cached_api_key, cache_api_key, invalidate_auth_cache, auth_cache_ttl,
  live_key,
}

-- A miss that has not queried the row.
pub record Miss : Type 0 where
  pub hash : String
  pub generation : ℕ

-- A row that was read and is not cached.
pub record Load : Type 0 where
  pub hash : String
  pub key : ApiKey
  pub generation : ℕ

pub record World : Type 0 where
  pub caches : Caches
  pub rows : String → Option ApiKey
  -- Writes whose invalidation is still to come.
  pub unannounced : ℕ
  pub misses : List Miss
  pub loads : List Load

pub data Step : World → World → Type 0 where
  write :
      (w : World) (rows : String → Option ApiKey)
      → Step w (record w { rows = rows; unannounced = w.unannounced + 1 })
  announce :
      (w : World) (n : ℕ)
      → w.unannounced ≡ n + 1
      → Step w (record w { caches = invalidate_auth_cache w.caches; unannounced = n })
  miss :
      (w : World) (hash : String) (now : ℕ)
      → (cached_api_key hash now w.caches).0 ≡ none
      → Step w (record w {
        misses =
            record { hash = hash; generation = (cached_api_key hash now w.caches).1 } ∷ w.misses;
      })
  query :
      (w : World) (xs : List Miss) (m : Miss) (ys : List Miss) (key : ApiKey)
      → w.misses ≡ xs ++ m ∷ ys
      → w.rows m.hash ≡ some key
      → Step w (record w {
        misses = xs ++ ys;
        loads = record { hash = m.hash; key = key; generation = m.generation } ∷ w.loads;
      })
  cache :
      (w : World) (xs : List Load) (l : Load) (ys : List Load) (now : ℕ)
      → w.loads ≡ xs ++ l ∷ ys
      → Step w (record w {
        caches = cache_api_key l.hash l.key now l.generation w.caches;
        loads = xs ++ ys;
      })

pub data Reach (start : World) : World → Type 0 where
  here : Reach start start
  next : {v w : World} → Reach start v → Step v w → Reach start w

-- What a loader may still cache is what the row holds.
abbrev Sound : World → Load → Type 0
Sound w l = (l.generation ≡ w.caches.auth_gen) → w.rows l.hash ≡ some l.key

pub record IsFresh (w : World) : Type 0 where
  old_misses : All (λ (m : Miss). m.generation ≤ w.caches.auth_gen) w.misses
  old_loads : All (λ (l : Load). l.generation ≤ w.caches.auth_gen) w.loads
  sound : w.unannounced ≡ 0 → All (Sound w) w.loads
  current :
      w.unannounced ≡ 0
      → (hash : String) (now : ℕ) (key : ApiKey)
      → live_key now (lookup hash w.caches.auth_cache) ≡ some key
      → w.rows hash ≡ some key

All-middle :
    {A : Type 0} (P : A → Type 0) (xs : List A) (y : A) (ys : List A) → All P (xs ++ y ∷ ys) → P y
All-middle P [] y ys h = h.0
All-middle P (x ∷ xs) y ys h = All-middle P xs y ys h.1

All-remove :
    {A : Type 0} (P : A → Type 0) (xs : List A) (y : A) (ys : List A)
    → All P (xs ++ y ∷ ys)
    → All P (xs ++ ys)
All-remove P [] y ys h = h.1
All-remove P (x ∷ xs) y ys h = (h.0, All-remove P xs y ys h.1)

All-map :
    {A : Type 0} (P Q : A → Type 0) (xs : List A) → ((x : A) → P x → Q x) → All P xs → All Q xs
All-map P Q [] f h = h
All-map P Q (x ∷ xs) f h = (f x h.0, All-map P Q xs f h.1)

cache_api_key-gen :
    (hash : String) (key : ApiKey) (now g : ℕ) (s : Caches)
    → (cache_api_key hash key now g s).auth_gen ≡ s.auth_gen
unfolding cache_api_key
cache_api_key-gen hash key now g s = ground arith

served_after_caching :
    (hash : String) (key : ApiKey) (now g : ℕ) (s : Caches) (asked : String) (later : ℕ)
    (v : ApiKey)
    → live_key later (lookup asked (cache_api_key hash key now g s).auth_cache) ≡ some v
    → ((s.auth_gen ≡ g) × (hash ≡ asked) × (key ≡ v))
      ⊎ (live_key later (lookup asked s.auth_cache) ≡ some v)
unfolding cache_api_key lookup
served_after_caching hash key now g s asked later v h = ground (
  arith,
  string_key.same_iff hash asked,
  lookup-insert {V = AuthCacheEntry} hash asked
      (record { key = key; expires = now + auth_cache_ttl }) [],
  lookup-insert {V = AuthCacheEntry} hash asked
      (record { key = key; expires = now + auth_cache_ttl }) s.auth_cache,
)

Step-IsFresh : {v w : World} → Step v w → IsFresh v → IsFresh w
unfolding cached_api_key invalidate_auth_cache lookup
Step-IsFresh (Step.write w rows) f = record {
  old_misses = f.old_misses;
  old_loads = f.old_loads;
  sound = λ h. absurd (omega arith);
  current = λ h. absurd (omega arith);
}
Step-IsFresh (Step.announce w n e) f = record {
  old_misses =
      All-map (λ (m : Miss). m.generation ≤ w.caches.auth_gen)
        (λ (m : Miss). m.generation ≤ w.caches.auth_gen + 1) w.misses (λ m h. omega arith)
        f.old_misses;
  old_loads = All-map _ _ w.loads (λ m h. omega arith) f.old_loads;
  sound = λ h. All-map _ _ w.loads (λ m h e. absurd (omega arith)) f.old_loads;
  current = λ h hash now key q. ground arith;
}
Step-IsFresh (Step.miss w hash now e) f = record {
  old_misses = (omega arith, f.old_misses);
  old_loads = f.old_loads;
  sound = f.sound;
  current = f.current;
}
Step-IsFresh (Step.query w xs m ys key e q) f =
    let old = subst (All (λ (m : Miss). m.generation ≤ w.caches.auth_gen)) e f.old_misses in
    record {
      old_misses = All-remove _ xs m ys old;
      old_loads = (All-middle _ xs m ys old, f.old_loads);
      sound = λ h. ((λ _. q), f.sound h);
      current = f.current;
    }
Step-IsFresh (Step.cache w xs l ys now e) f =
    let same_gen = cache_api_key-gen l.hash l.key now l.generation w.caches in
    let remove =
      λ (Q : Load → Type 0) (h : All Q w.loads). All-remove Q xs l ys (subst (All Q) e h) in
    record {
      old_misses = All-map _ _ w.misses (λ m h. omega (arith, same_gen)) f.old_misses;
      old_loads = All-map _ _ (xs ++ ys) (λ m h. omega (arith, same_gen)) (remove _ f.old_loads);
      sound =
          λ h. All-map (Sound w) _ (xs ++ ys) (λ m k g. k (g ∙ same_gen)) (remove _ (f.sound h));
      current = λ h hash later key q.
          elim (served_after_caching l.hash l.key now l.generation w.caches hash later key q) [
            | inl (g, same, eq) ↦
                let mine = All-middle (Sound w) xs l ys (subst (All (Sound w)) e (f.sound h)) in
                cc (mine (sym g), same, eq)
            | inr old ↦ f.current h hash later key old
          ];
    }

Reach-IsFresh : {v w : World} → IsFresh v → Reach v w → IsFresh w
Reach-IsFresh f Reach.here = f
Reach-IsFresh f (Reach.next r s) = Step-IsFresh s (Reach-IsFresh f r)

starts-IsFresh : (w : World) → w.caches.auth_cache ≡ [] → w.misses ≡ [] → w.loads ≡ [] → IsFresh w
unfolding lookup
starts-IsFresh w a b c = record {
  old_misses = subst (All _) (sym b) tt;
  old_loads = subst (All _) (sym c) tt;
  sound = λ h. subst (All (Sound w)) (sym c) tt;
  current = λ h hash now key q. ground (arith, a);
}

-- Start with an empty cache and nothing under way, and let lookups, queries, caching, changes of the
-- rows and invalidations interleave in any order. Whenever every change so far has been followed by
-- its invalidation, a key served from the cache is the one that its row holds.
pub served_is_current :
    {v w : World} (hash : String) (now : ℕ) (key : ApiKey)
    → v.caches.auth_cache ≡ []
    → v.misses ≡ []
    → v.loads ≡ []
    → Reach v w
    → w.unannounced ≡ 0
    → (cached_api_key hash now w.caches).0 ≡ some key
    → w.rows hash ≡ some key
unfolding cached_api_key
served_is_current {v} {w} hash now key a b c r u h =
    IsFresh.current (Reach-IsFresh (starts-IsFresh v a b c) r) u hash now key h
