-- ===== src/Store/Pricing/Tests.antt =====
-- Prices of a model that changed its price twice.
use d_api.Base.{ℕ, ◌+◌, ◌≡◌, refl, ◌⊎◌, true, false, none, some, List, [], ◌∷◌}
use d_api.Store.Pricing.{
  Rates, PricingModelPrice, PricingCache, PricingCacheKey, covers, select, boundaries, latest_until,
  earliest_after, load_pricing_window, pricing_rate,
}
use d_api.Store.Pricing.Window.{load_pricing_window-select}
use d_api.Store.Pricing.Current.{IsCurrent, pricing_rate-IsCurrent}

abbrev rates : ℕ → Rates ℕ
rates n = record { input = n; output = n + n; cache_read = 0; cache_write = n }

-- The latest price first.
abbrev history : List (PricingModelPrice ℕ)
history =
    record { rates = rates 3; valid_from = 9000; valid_to = none }
    ∷ record { rates = rates 2; valid_from = 5000; valid_to = some 9000 }
    ∷ []

window_run : (load_pricing_window history 6000).from ≡ some 5000
unfolding load_pricing_window latest_until boundaries
window_run = refl

load_pricing_window-select_example :
    select (load_pricing_window history 6000).prices 8000 ≡ select history 8000
unfolding load_pricing_window latest_until earliest_after boundaries covers
load_pricing_window-select_example = load_pricing_window-select history 6000 8000 refl

abbrev table : PricingCacheKey → List (PricingModelPrice ℕ)
table key = history

abbrev cold : PricingCache ℕ
cold = record { entries = []; gen = 4 }

abbrev asked_key : PricingCacheKey
asked_key = record { upstream_id = 4; model = "gpt" }

pricing_rate-IsCurrent_example :
    let done = pricing_rate false 0 history asked_key 100000 6400 cold in
    IsCurrent table done.0
    × (((false ≡ true) × (done.1 ≡ none)) ⊎ (done.1 ≡ some (select history 6000)))
pricing_rate-IsCurrent_example =
    pricing_rate-IsCurrent table table false 0 asked_key 100000 6400 cold tt (λ _. refl)
