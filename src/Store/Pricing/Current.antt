-- ===== src/Store/Pricing/Current.antt =====
-- internal/store/pricing.go: what the cache of prices answers is what the table says.
use d_api.Base.{
  ℕ, zero, suc, ◌+◌, ◌≤◌, ◌≡◌, ◌≢◌, refl, sym, ap, subst, ◌∙◌, Bool, true, false, Option, none,
  some, List, [], ◌∷◌, arith, ltb, nat_beq, length, take, Option-cases, Bool-cases, inl, inr,
  nat_key, ◌⊎◌,
}
use d_api.Base.Maps.{Map, lookup, retain}
use d_api.Base.Maps.Every.{Every, Every-lookup, Every-insert, Every-retain}
use d_api.Store.Pricing.{
  Rates, PricingModelPrice, PricingCacheEntry, PricingCache, PricingCacheKey, pricing_key,
  round_microsecond, covers, select, load_pricing_history, invalidate_pricing_cache,
  invalidate_times, cached_rate, make_room, store_rate, was_partial, load_entry, pricing_rate,
}
use d_api.Store.Pricing.Window.{load_pricing_window-select, load_pricing_window-covers}

take_all : {A : Type 0} → (n : ℕ) (xs : List A) → length (take (suc n) xs) ≤ n → take n xs ≡ xs
take_all zero [] h = refl
take_all zero (x ∷ xs) h = absurd (omega (arith, h))
take_all (suc n) [] h = refl
take_all (suc n) (x ∷ xs) h = ap (◌∷◌ x) (take_all n xs (omega (arith, h)))

not_less : (a b : ℕ) → ltb a b ≡ false → b ≤ a
not_less a b h = ground (arith, h)

module _ {M : Type 0} where
  -- The entry answers like the rows at every time that it covers.
  abbrev pub AnswersLike : List (PricingModelPrice M) → PricingCacheEntry M → Type 0
  AnswersLike rows entry = (t : ℕ) → covers entry t ≡ true → select entry.prices t ≡ select rows t

  abbrev pub IsCurrent : (PricingCacheKey → List (PricingModelPrice M)) → PricingCache M → Type 0
  IsCurrent table c = Every (λ key entry. AnswersLike (table key) entry) c.entries

  whole_history :
      (rows : List (PricingModelPrice M)) (t : ℕ)
      → take 256 rows ≡ rows
      → let entry : PricingCacheEntry M = record {
        expires = 0;
        prices = take 256 rows;
        partial = false;
        from = none;
        to = none;
      } in
        AnswersLike rows entry × (covers entry t ≡ true)
  unfolding covers
  whole_history rows t all = (λ t' h. ap (λ ps. select ps t') all, refl)

  load_pricing_history-AnswersLike :
      (rows : List (PricingModelPrice M)) (t : ℕ)
      → AnswersLike rows (load_pricing_history rows t)
        × (covers (load_pricing_history rows t) t ≡ true)
  unfolding load_pricing_history
  load_pricing_history-AnswersLike rows t = elim (Bool-cases (ltb 256 (length (take 257 rows)))) [
    | inl long ↦
        rw (long, load_pricing_history)
          (load_pricing_window-select rows t, load_pricing_window-covers rows t)
    | inr short ↦
        rw (short, load_pricing_history)
          (whole_history rows t (take_all 256 rows (not_less 256 (length (take 257 rows)) short)))
  ]

  loaded-AnswersLike :
      (partial : Bool) (rows : List (PricingModelPrice M)) (t expires : ℕ)
      → let entry = load_entry partial rows t expires in
        AnswersLike rows entry × (select entry.prices t ≡ select rows t)
  unfolding covers
  loaded-AnswersLike true rows t expires = (
    load_pricing_window-select rows t,
    load_pricing_window-select rows t t (load_pricing_window-covers rows t),
  )
  loaded-AnswersLike false rows t expires =
      let (answers, now) = load_pricing_history-AnswersLike rows t in (answers, answers t now)

  Every-make_room :
      (P : PricingCacheKey → PricingCacheEntry M → Type 0) (now : ℕ)
      (entries : Map PricingCacheKey (PricingCacheEntry M))
      → Every P entries
      → Every P (make_room now entries)
  Every-make_room P now entries all =
      let rest =
        retain (λ (key : PricingCacheKey) (entry : PricingCacheEntry M). ltb now entry.expires)
          entries in
      elim (Bool-cases (ltb (length entries) 1024)) [
        | inl fits ↦ rw fits all
        | inr full ↦ rw full (elim (Bool-cases (ltb (length rest) 1024)) [
          | inl fits ↦ rw fits (Every-retain P _ entries all)
          | inr still ↦ rw still tt
        ])
      ]

  store_rate-IsCurrent :
      (table : PricingCacheKey → List (PricingModelPrice M)) (generation : ℕ)
      (key : PricingCacheKey) (now : ℕ) (entry : PricingCacheEntry M) (c : PricingCache M)
      → (generation ≡ c.gen → AnswersLike (table key) entry)
      → IsCurrent table c
      → IsCurrent table (store_rate generation key now entry c)
  unfolding store_rate
  store_rate-IsCurrent table generation key now entry c right current =
      let P = λ (k : PricingCacheKey) (v : PricingCacheEntry M). AnswersLike (table k) v in
      elim (Bool-cases (nat_beq generation c.gen)) [
        | inl same ↦
            rw (same, store_rate)
              (Every-insert P key entry (make_room now c.entries)
                (right ((nat_key.same_iff generation c.gen).0 same))
                (Every-make_room P now c.entries current))
        | inr other ↦ rw (other, store_rate) current
      ]

  invalidated-IsCurrent :
      (table table' : PricingCacheKey → List (PricingModelPrice M)) (changes : ℕ)
      (c : PricingCache M)
      → (changes ≡ 0 → table ≡ table')
      → IsCurrent table c
      → IsCurrent table' (invalidate_times changes c)
        × (c.gen + changes ≡ (invalidate_times changes c).gen)
  unfolding invalidate_pricing_cache
  invalidated-IsCurrent table table' zero c kept current =
      (subst (λ t. IsCurrent t c) (kept refl) current, omega arith)
  invalidated-IsCurrent table table' (suc n) c kept current =
      let (after, count) =
        invalidated-IsCurrent table' table' n (invalidate_pricing_cache c) (λ _. refl) tt in
      (after, omega (arith, count))

  cached_none :
      (key : PricingCacheKey) (now t : ℕ) (c : PricingCache M) (answer : Option (Rates M))
      → lookup key c.entries ≡ none
      → cached_rate key now t c ≢ some answer
  unfolding cached_rate
  cached_none key now t c answer gone h = ground (arith, gone, h)

  cached_some :
      (key : PricingCacheKey) (now t : ℕ) (c : PricingCache M) (answer : Option (Rates M))
      (entry : PricingCacheEntry M)
      → lookup key c.entries ≡ some entry
      → cached_rate key now t c ≡ some answer
      → (covers entry t ≡ true) × (select entry.prices t ≡ answer)
  unfolding cached_rate
  cached_some key now t c answer entry found h = ground (arith, found, h)

  cached_rate-select :
      (table : PricingCacheKey → List (PricingModelPrice M)) (key : PricingCacheKey) (now t : ℕ)
      (c : PricingCache M) (answer : Option (Rates M))
      → IsCurrent table c
      → cached_rate key now t c ≡ some answer
      → answer ≡ select (table key) t
  unfolding cached_rate
  cached_rate-select table key now t c answer current h =
      elim (Option-cases (lookup key c.entries)) [
        | inl gone ↦ absurd (cached_none key now t c answer gone h)
        | inr (entry, found) ↦
            let (covered, same) = cached_some key now t c answer entry found h in
            sym same
            ∙ Every-lookup
                (λ (k : PricingCacheKey) (v : PricingCacheEntry M). AnswersLike (table k) v) key
                entry c.entries current found t covered
      ]

  -- While the table changes only together with an invalidation, a price that is asked for is that of
  -- the table at the time of the request, rounded to microseconds, or the query broke; and the cache
  -- goes on to answer like the table, also if it was changed and invalidated during the call.
  pub pricing_rate-IsCurrent :
      (table table' : PricingCacheKey → List (PricingModelPrice M)) (broken : Bool) (changes : ℕ)
      (key : PricingCacheKey) (now asked : ℕ) (c : PricingCache M)
      → IsCurrent table c
      → (changes ≡ 0 → table ≡ table')
      → let done = pricing_rate broken changes (table key) key now asked c in
        IsCurrent table' done.0
        × (((broken ≡ true) × (done.1 ≡ none))
            ⊎ (done.1 ≡ some (select (table key) (round_microsecond asked))))
  unfolding pricing_rate
  pricing_rate-IsCurrent table table' broken changes key now asked c current kept =
      let t = round_microsecond asked in
      let rows = table key in
      let (after, count) = invalidated-IsCurrent table table' changes c kept current in
      let partial = was_partial (lookup key c.entries) in
      let entry = load_entry partial rows t (now + 30000000000) in
      let (answers, right) = loaded-AnswersLike partial rows t (now + 30000000000) in
      elim (Option-cases (cached_rate key now t c)) [
        | inl missed ↦
            rw (missed, pricing_rate)
              (elim (Bool-cases broken) [
                | inl failed ↦ rw failed (after, inl (refl, refl))
                | inr loads ↦ rw loads (
                  store_rate-IsCurrent table' c.gen key now entry (invalidate_times changes c)
                      (λ same.
                        subst
                          (λ (rows_of : PricingCacheKey → List (PricingModelPrice M)).
                            AnswersLike (rows_of key) entry)
                          (kept (omega (arith, count, same))) answers)
                      after,
                  inr (ap some right),
                )
              ])
        | inr (answer, hit) ↦
            rw (hit, pricing_rate)
              (after, inr (ap some (cached_rate-select table key now t c answer current hit)))
      ]
