-- ===== src/Gateway/Budget/Buffer.antt =====
-- A response buffer against the budget that it shares with others.
use d_api.Base.{
  ℕ, ◌+◌, ◌≤◌, ◌<◌, ◌≡◌, ◌⊎◌, true, none, some, List, ◌++◌, arith, length, length-append,
}
use d_api.Gateway.Budget.{
  ByteBudget, ResponseBuffer, response_budget, max_body_bytes, next_capacity, acquire, release,
  append, release_buffer,
}

-- A buffer holds its capacity of the budget, the others hold `others`, and no limit is passed.
pub record Holds (others : ℕ) (r : ResponseBuffer) (b : ByteBudget) : Type 0 where
  pub budgeted : r.has_budget ≡ true
  pub accounted : b.used ≡ others + r.reserved
  pub reserves : r.reserved ≡ r.capacity
  pub fits : length r.content ≤ r.capacity
  pub capped : r.capacity ≤ max_body_bytes
  pub limited : b.used ≤ r.limit

module _ (grow : ℕ → ℕ → ℕ) where
  -- A chunk that keeps the content within 32 MiB is appended, and then the budget still counts
  -- exactly the buffer's capacity beside what the others hold and is within its limit, also while
  -- the old and the new allocation are both alive; or the budget has no room for the new one, and
  -- then neither the buffer nor the budget changes.
  pub append-Holds :
      (others : ℕ) (r : ResponseBuffer) (b : ByteBudget) (chunk : List ℕ)
      → Holds others r b
      → length r.content + length chunk ≤ max_body_bytes
      → ((append grow chunk (r, b)).1 ≡ none)
          × ((append grow chunk (r, b)).0.0.content ≡ r.content ++ chunk)
          × (Holds others (append grow chunk (r, b)).0.0 (append grow chunk (r, b)).0.1)
          × ((length r.content + length chunk ≤ r.capacity)
              ⊎ (b.used + next_capacity (length r.content + length chunk) r.capacity ≤ r.limit))
        ⊎ (((append grow chunk (r, b)).1 ≡ some response_budget)
            × ((append grow chunk (r, b)).0 ≡ (r, b))
            × (r.capacity < length r.content + length chunk)
            × (r.limit < b.used + next_capacity (length r.content + length chunk) r.capacity))
  unfolding append acquire release
  append-Holds others r b chunk h m = ground (arith, length-append r.content chunk)

-- Releasing a buffer gives back all that it holds.
pub release_buffer-used :
    (others : ℕ) (r : ResponseBuffer) (b : ByteBudget)
    → Holds others r b
    → ((release_buffer (r, b)).1.used ≡ others) × ((release_buffer (r, b)).0.reserved ≡ 0)
unfolding release_buffer release
release_buffer-used others r b h = ground arith
