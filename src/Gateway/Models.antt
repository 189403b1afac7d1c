-- ===== src/Gateway/Models.antt =====
-- internal/gateway/handler.go, `models`: the list of the models that a key may use, behind the gate
-- and the rate limiter. `sort` stands for `sort.Strings`.
use d_api.Base.{
  ℕ, String, ◌≡◌, refl, ap, ◌∙◌, Bool, true, not, ◌&&◌, ◌||◌, List, [], ◌∷◌, ◌==◌, string_key,
  nat_key, if◌then◌else◌, arith, Bool-cases, inl, inr,
}
use d_api.Base.Maps.{lookup}
use d_api.Core.{ApiKey, contains, is_nil}
use d_api.Gateway.Gate.{Limits, RequestGate, acquire, release, count_or_zero}
use d_api.Gateway.Gate.Restore.{release-acquire, refused-acquire}
use d_api.Gateway.Rate.{RequestRateLimiter, allow}

-- What the repository and the context have come to after `AvailableModels`.
pub data Listing : Type 0 where
  timed_out client_gone failed : Listing
  available : List String → Listing

pub data Reply : Type 0 where
  concurrency_limited rate_limited request_timeout no_reply internal_error : Reply
  listed : List String → Reply

pub record Admission : Type 0 where
  pub gate : RequestGate
  pub rate : RequestRateLimiter

unfoldable pub is_offered : List String → List String → String → Bool
is_offered allowed seen model =
    not (model == "") && (not (contains seen model) && (is_nil allowed || contains allowed model))

-- The loop over the models, with those seen before.
unfoldable pub filter_models : List String → List String → List String → List String
filter_models allowed seen [] = []
filter_models allowed seen (model ∷ models) =
    let taken = filter_models allowed (model ∷ seen) models in
    let skipped = filter_models allowed seen models in
    if is_offered allowed seen model then model ∷ taken else skipped

unfoldable pub reply_of : (List String → List String) → ApiKey → Listing → Reply
reply_of sort key Listing.timed_out = Reply.request_timeout
reply_of sort key Listing.client_gone = Reply.no_reply
reply_of sort key Listing.failed = Reply.internal_error
reply_of sort key (Listing.available models) =
    Reply.listed (sort (filter_models key.models [] models))

-- `handle_models` for an authenticated key.
unfoldable pub handle_models :
    (List String → List String) → Limits → ℕ → ApiKey → ℕ → Listing → Admission → Admission × Reply
handle_models sort limits max key now answer a =
    let entered = acquire key.id limits a.gate in
    if not entered.1
    then (record a { gate = entered.0 }, Reply.concurrency_limited)
    else (let limited = allow key.id max now a.rate in
        (
          record { gate = release key.id entered.0; rate = limited.0 },
          if limited.1 then reply_of sort key answer else Reply.rate_limited,
        ))

offered_next :
    (allowed seen : List String) (x m : String)
    → is_offered allowed (x ∷ seen) m ≡ (not (x == m) && is_offered allowed seen m)
unfolding is_offered contains
offered_next allowed seen x m = ground arith

contains-filter_models :
    (allowed seen models : List String) (m : String)
    → contains (filter_models allowed seen models) m
      ≡ (contains models m && is_offered allowed seen m)
unfolding filter_models contains
contains-filter_models allowed seen [] m = refl
contains-filter_models allowed seen (x ∷ xs) m =
    let taken = contains-filter_models allowed (x ∷ seen) xs m in
    let skipped = contains-filter_models allowed seen xs m in
    let step = offered_next allowed seen x m in
    elim (Bool-cases (x == m)) [
      | inl e ↦
          let same : is_offered allowed seen x ≡ is_offered allowed seen m =
            ap (is_offered allowed seen) ((string_key.same_iff x m).0 e) in
          ground (arith, e, same, taken, skipped, step)
      | inr e ↦ ground (arith, e, taken, skipped, step)
    ]

-- A request for the models leaves the gate with the counts that it had, whichever way it ends.
pub handle_models-gate :
    (sort : List String → List String) (limits : Limits) (max : ℕ) (key : ApiKey) (now : ℕ)
    (answer : Listing) (a : Admission)
    → let after = (handle_models sort limits max key now answer a).0 in
      (after.gate.active ≡ a.gate.active)
      × ((j : ℕ)
          → count_or_zero (lookup j after.gate.by_key) ≡ count_or_zero (lookup j a.gate.by_key))
unfolding handle_models
handle_models-gate sort limits max key now answer a =
    elim (Bool-cases (acquire key.id limits a.gate).1) [
      | inl yes_in ↦ (
        ground (arith, yes_in, release-acquire key.id limits a.gate 0 yes_in),
        λ j. ground (arith, yes_in, release-acquire key.id limits a.gate j yes_in),
      )
      | inr out ↦ (
        ground (arith, out, refused-acquire key.id limits a.gate out),
        λ j. ground (arith, out, refused-acquire key.id limits a.gate out),
      )
    ]

-- If sorting keeps the elements, a request that the gate and the rate limiter let in and for which
-- the repository has a list is answered by a list with exactly the named models of it that the key
-- allows.
pub handle_models-listed :
    (sort : List String → List String) (limits : Limits) (max : ℕ) (key : ApiKey) (now : ℕ)
    (offered : List String) (a : Admission)
    → ((xs : List String) (m : String) → contains (sort xs) m ≡ contains xs m)
    → (acquire key.id limits a.gate).1 ≡ true
    → (allow key.id max now a.rate).1 ≡ true
    → (listing : List String) × ((handle_models sort limits max key now
          (Listing.available offered)
          a).1
        ≡ Reply.listed listing)
      × ((m : String)
          → contains listing m ≡ (
              contains offered m
              && (not (m == "") && (is_nil key.models || contains key.models m))))
unfolding handle_models reply_of is_offered contains
handle_models-listed sort limits max key now offered a keeps entered allowed = (
  sort (filter_models key.models [] offered),
  ground (arith, entered, allowed),
  λ m.
      keeps (filter_models key.models [] offered) m
      ∙ contains-filter_models key.models [] offered m,
)
