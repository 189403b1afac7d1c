-- ===== src/Store/Pricing/Window.antt =====
-- internal/store/pricing.go: what is loaded of a price history answers like the whole of it.
use d_api.Base.{
  ℕ, ◌≡◌, refl, ◌∙◌, true, ◌&&◌, Option, none, some, List, [], ◌∷◌, arith, ltb, leb, if◌then◌else◌,
  All,
}
use d_api.Store.Pricing.{
  Rates, PricingModelPrice, reached, not_over, covers, select, boundaries, later_of, earlier_of,
  latest_until, earliest_after, with_end, chosen, load_pricing_window,
}

-- No boundary lies between the two times.
abbrev Same : ℕ → ℕ → List ℕ → Type 0
Same t t' = All (λ (b : ℕ). leb b t ≡ leb b t')

one_side :
    (b t t' : ℕ) (f g : Option ℕ)
    → reached (if leb b t then some (later_of b f) else f) t' ≡ true
    → not_over (if ltb t b then some (earlier_of b g) else g) t' ≡ true
    → (leb b t ≡ leb b t') × (reached f t' ≡ true) × (not_over g t' ≡ true)
one_side b t t' none none h h' = ground (arith, h, h')
one_side b t t' none (some g) h h' = ground (arith, h, h')
one_side b t t' (some f) none h h' = ground (arith, h, h')
one_side b t t' (some f) (some g) h h' = ground (arith, h, h')

within-Same :
    (t t' : ℕ) (bs : List ℕ)
    → reached (latest_until t bs) t' ≡ true
    → not_over (earliest_after t bs) t' ≡ true
    → Same t t' bs
unfolding latest_until earliest_after
within-Same t t' [] h h' = tt
within-Same t t' (b ∷ bs) h h' =
    let (side, before, after) = one_side b t t' (latest_until t bs) (earliest_after t bs) h h' in
    (side, within-Same t t' bs before after)

ends-Same :
    (f t t' : ℕ) (to : Option ℕ) (bs : List ℕ)
    → leb f t ≡ leb f t'
    → Same t t' (with_end to bs)
    → ((leb f t && not_over to t) ≡ (leb f t' && not_over to t')) × Same t t' bs
ends-Same f t t' none bs side same = (ground (arith, side), same)
ends-Same f t t' (some u) bs side same = (ground (arith, side, same.0), same.1)

reached_later :
    (b t : ℕ) (o : Option ℕ)
    → reached o t ≡ true
    → reached (if leb b t then some (later_of b o) else o) t ≡ true
reached_later b t none h = ground (arith, h)
reached_later b t (some f) h = ground (arith, h)

latest_until-reached : (t : ℕ) (bs : List ℕ) → reached (latest_until t bs) t ≡ true
unfolding latest_until
latest_until-reached t [] = refl
latest_until-reached t (b ∷ bs) = reached_later b t (latest_until t bs) (latest_until-reached t bs)

not_over_earlier :
    (b t : ℕ) (o : Option ℕ)
    → not_over o t ≡ true
    → not_over (if ltb t b then some (earlier_of b o) else o) t ≡ true
not_over_earlier b t none h = ground (arith, h)
not_over_earlier b t (some f) h = ground (arith, h)

earliest_after-not_over : (t : ℕ) (bs : List ℕ) → not_over (earliest_after t bs) t ≡ true
unfolding earliest_after
earliest_after-not_over t [] = refl
earliest_after-not_over t (b ∷ bs) =
    not_over_earlier b t (earliest_after t bs) (earliest_after-not_over t bs)

module _ {M : Type 0} where
  Same-select :
      (t t' : ℕ) (rows : List (PricingModelPrice M))
      → Same t t' (boundaries rows)
      → select rows t ≡ select rows t'
  unfolding select boundaries
  Same-select t t' [] same = refl
  Same-select t t' (p ∷ ps) same =
      let (side, later) = ends-Same p.valid_from t t' p.valid_to (boundaries ps) same.0 same.1 in
      ground (arith, side, Same-select t t' ps later)

  select-chosen :
      (rates : Option (Rates M)) (from to : Option ℕ) (t : ℕ)
      → reached from t ≡ true
      → not_over to t ≡ true
      → select (chosen rates from to) t ≡ rates
  unfolding select
  select-chosen none from to t h h' = refl
  select-chosen (some r) none to t h h' = ground (arith, h')
  select-chosen (some r) (some f) to t h h' = ground (arith, h, h')

  -- A window that was loaded for one time answers, at every time that it covers, like all the prices
  -- of its key: the chosen price does not change in between.
  pub load_pricing_window-select :
      (rows : List (PricingModelPrice M)) (t t' : ℕ)
      → covers (load_pricing_window rows t) t' ≡ true
      → select (load_pricing_window rows t).prices t' ≡ select rows t'
  unfolding covers load_pricing_window
  load_pricing_window-select rows t t' h =
      let from = latest_until t (boundaries rows) in
      let to = earliest_after t (boundaries rows) in
      let began : reached from t' ≡ true = ground (arith, h) in
      let lasts : not_over to t' ≡ true = ground (arith, h) in
      select-chosen (select rows t) from to t' began lasts
      ∙ Same-select t t' rows (within-Same t t' (boundaries rows) began lasts)

  pub load_pricing_window-covers :
      (rows : List (PricingModelPrice M)) (t : ℕ) → covers (load_pricing_window rows t) t ≡ true
  unfolding covers load_pricing_window
  load_pricing_window-covers rows t =
      ground (
        arith,
        latest_until-reached t (boundaries rows),
        earliest_after-not_over t (boundaries rows),
      )
