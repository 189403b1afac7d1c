-- ===== src/Store/Pricing.antt =====
-- internal/store/pricing.go: the price of a request and the cache of prices. Amounts are of a type
-- `M`, whose arithmetic in floating point is a parameter. The rows of a key in the price table are
-- given in the order of the queries' `ORDER BY`.
pub mod Window
pub mod Current
pub mod Tests
use d_api.Base.{
  ℕ, zero, suc, ◌+◌, ◌*◌, ◌/◌, String, Bool, true, false, not, ◌&&◌, ◌||◌, Option, none, some, List,
  [], ◌∷◌, ◌++◌, ltb, leb, nat_beq, length, take, if◌then◌else◌, Key, ◌==◌, nat_key, string_key,
  ◌≡◌, ◌↔◌, arith,
}
use d_api.Base.Int.{ℤ, pos, ◌-ℤ◌, is_negative, wrap_64}
use d_api.Base.Maps.{Map, lookup, insert, retain}
use d_api.Gateway.Usage.{Usage}

pub record Rates (M : Type 0) : Type 0 where
  pub input : M
  pub output : M
  pub cache_read : M
  pub cache_write : M

pub record PricingModelPrice (M : Type 0) : Type 0 where
  pub rates : Rates M
  pub valid_from : ℕ
  pub valid_to : Option ℕ

pub record PricingCacheKey : Type 0 where
  pub upstream_id : ℕ
  pub model : String

abbrev pub same_pricing_key : PricingCacheKey → PricingCacheKey → Bool
same_pricing_key a b = a.upstream_id == b.upstream_id && a.model == b.model

pub same_pricing_key_iff : (a b : PricingCacheKey) → (same_pricing_key a b ≡ true) ↔ (a ≡ b)
same_pricing_key_iff a b =
    ground
      (arith, nat_key.same_iff a.upstream_id b.upstream_id, string_key.same_iff a.model b.model)

instance abbrev pub pricing_key : Key PricingCacheKey
pricing_key = record { same = same_pricing_key; same_iff = same_pricing_key_iff }

-- An entry of the cache; what `selectPricingRate` finds in it is an `Option (Rates M)`.
pub record PricingCacheEntry (M : Type 0) : Type 0 where
  pub expires : ℕ
  pub prices : List (PricingModelPrice M)
  pub partial : Bool
  pub from : Option ℕ
  pub to : Option ℕ

pub record PricingCache (M : Type 0) : Type 0 where
  pub entries : Map PricingCacheKey (PricingCacheEntry M)
  pub gen : ℕ

abbrev pub reached : Option ℕ → ℕ → Bool
reached none t = true
reached (some b) t = leb b t

abbrev pub not_over : Option ℕ → ℕ → Bool
not_over none t = true
not_over (some b) t = ltb t b

-- `at.Round(time.Microsecond)`.
abbrev pub round_microsecond : ℕ → ℕ
round_microsecond t = (t + 500) / 1000 * 1000

abbrev pub later_of : ℕ → Option ℕ → ℕ
later_of b none = b
later_of b (some c) = if ltb b c then c else b

abbrev pub earlier_of : ℕ → Option ℕ → ℕ
earlier_of b none = b
earlier_of b (some c) = if ltb c b then c else b

-- `max(at) ... WHERE at <= $3` and `min(at) ... WHERE at > $3`.
unfoldable pub latest_until : ℕ → List ℕ → Option ℕ
latest_until t [] = none
latest_until t (b ∷ bs) =
    let rest = latest_until t bs in if leb b t then some (later_of b rest) else rest

unfoldable pub earliest_after : ℕ → List ℕ → Option ℕ
earliest_after t [] = none
earliest_after t (b ∷ bs) =
    let rest = earliest_after t bs in if ltb t b then some (earlier_of b rest) else rest

abbrev pub or_zero : Option ℕ → ℕ
or_zero none = 0
or_zero (some t) = t

abbrev pub with_end : Option ℕ → List ℕ → List ℕ
with_end none bs = bs
with_end (some t) bs = t ∷ bs

module _ {M : Type 0} where
  unfoldable pub covers : PricingCacheEntry M → ℕ → Bool
  covers entry t = not entry.partial || (reached entry.from t && not_over entry.to t)

  abbrev pub is_valid : ℕ → PricingModelPrice M → Bool
  is_valid t p = leb p.valid_from t && not_over p.valid_to t

  -- The loop of `selectPricingRate`.
  unfoldable pub select : List (PricingModelPrice M) → ℕ → Option (Rates M)
  select [] t = none
  select (p ∷ ps) t = let rest = select ps t in if is_valid t p then some p.rates else rest

  unfoldable pub boundaries : List (PricingModelPrice M) → List ℕ
  boundaries [] = []
  boundaries (p ∷ ps) = p.valid_from ∷ with_end p.valid_to (boundaries ps)

  abbrev pub chosen : Option (Rates M) → Option ℕ → Option ℕ → List (PricingModelPrice M)
  chosen none from to = []
  chosen (some rates) from to =
      record { rates = rates; valid_from = or_zero from; valid_to = to } ∷ []

  unfoldable pub load_pricing_window : List (PricingModelPrice M) → ℕ → PricingCacheEntry M
  load_pricing_window rows t =
      let from = latest_until t (boundaries rows) in
      let to = earliest_after t (boundaries rows) in
      record {
        expires = 0;
        prices = chosen (select rows t) from to;
        partial = true;
        from = from;
        to = to;
      }

  unfoldable pub load_pricing_history : List (PricingModelPrice M) → ℕ → PricingCacheEntry M
  load_pricing_history rows t =
      if ltb 256 (length (take 257 rows))
      then load_pricing_window rows t
      else record { expires = 0; prices = take 256 rows; partial = false; from = none; to = none }

  -- A history that was too long before is not loaded whole again.
  abbrev pub load_entry : Bool → List (PricingModelPrice M) → ℕ → ℕ → PricingCacheEntry M
  load_entry partial rows t expires =
      let loaded = if partial then load_pricing_window rows t else load_pricing_history rows t in
      record loaded { expires = expires }

  unfoldable pub invalidate_pricing_cache : PricingCache M → PricingCache M
  invalidate_pricing_cache c = record { entries = []; gen = c.gen + 1 }

  -- The answer of the cache, if it has a fresh one.
  unfoldable pub cached_rate : PricingCacheKey → ℕ → ℕ → PricingCache M → Option (Option (Rates M))
  cached_rate key now t c = elim (lookup key c.entries) [
    | none ↦ none
    | some entry ↦
        if ltb now entry.expires && covers entry t then some (select entry.prices t) else none
  ]

  abbrev pub was_partial : Option (PricingCacheEntry M) → Bool
  was_partial none = false
  was_partial (some entry) = entry.partial

  -- The entries that are kept when another one comes.
  abbrev pub make_room :
      ℕ → Map PricingCacheKey (PricingCacheEntry M) → Map PricingCacheKey (PricingCacheEntry M)
  make_room now entries =
      let rest = retain (λ key entry. ltb now entry.expires) entries in
      if ltb (length entries) 1024 then entries else (if ltb (length rest) 1024 then rest else [])

  unfoldable pub store_rate :
      ℕ → PricingCacheKey → ℕ → PricingCacheEntry M → PricingCache M → PricingCache M
  store_rate generation key now entry c =
      if nat_beq generation c.gen
      then record c { entries = insert key entry (make_room now c.entries) }
      else c

  abbrev pub invalidate_times : ℕ → PricingCache M → PricingCache M
  invalidate_times zero c = c
  invalidate_times (suc n) c = invalidate_times n (invalidate_pricing_cache c)

  -- `pricingRate`: `rows` are those of the key when they are loaded, `broken` says that a query or the
  -- wait for it failed, and `changes` counts the invalidations after the cache was read; calls
  -- do not interleave otherwise.
  unfoldable pub pricing_rate :
      Bool
      → ℕ
      → List (PricingModelPrice M)
      → PricingCacheKey
      → ℕ
      → ℕ
      → PricingCache M
      → PricingCache M × Option (Option (Rates M))
  pricing_rate broken changes rows key now asked c =
      let t = round_microsecond asked in
      elim (cached_rate key now t c) [
        | some answer ↦ (invalidate_times changes c, some answer)
        | none ↦
            if broken
            then (invalidate_times changes c, none)
            else (let entry =
                  load_entry (was_partial (lookup key c.entries)) rows t (now + 30000000000) in
                (
                  store_rate c.gen key now entry (invalidate_times changes c),
                  some (select entry.prices t),
                ))
      ]

-- The arithmetic of amounts: tokens at a rate, sums, and the division by a million.
pub record Amounts (M : Type 0) : Type 0 where
  pub zero : M
  pub times : ℤ → M → M
  pub plus : M → M → M
  pub millionth : M → M

abbrev pub at_least_zero : ℤ → ℤ
at_least_zero n = if is_negative n then pos 0 else n

abbrev pub or_else : Option ℤ → Option ℤ → Option ℤ
or_else none other = other
or_else (some n) other = some n

abbrev pub less_cached : Option ℤ → Option ℤ → Option ℤ
less_cached none cached = none
less_cached (some n) none = some (at_least_zero n)
less_cached (some n) (some cached) = some (at_least_zero (wrap_64 (n -ℤ cached)))

-- The input tokens at the full price.
unfoldable pub full_price_tokens : Usage → Option ℤ
full_price_tokens u = elim u.billable_input_tokens [
  | some n ↦ some (at_least_zero n)
  | none ↦ or_else u.uncached_input_tokens (less_cached u.input_tokens u.cached_input_tokens)
]

module _ {M : Type 0} (x : Amounts M) where
  abbrev pub add_tokens : Option ℤ → M → M → M
  add_tokens none rate total = total
  add_tokens (some n) rate total = x.plus total (x.times n rate)

  unfoldable pub calculate_request_cost : Rates M → Usage → M
  calculate_request_cost price u = x.millionth (
      add_tokens u.output_tokens price.output (
        add_tokens u.cache_creation_input_tokens price.cache_write (
          add_tokens u.cached_input_tokens price.cache_read
            (add_tokens (full_price_tokens u) price.input x.zero))))
