-- ===== src/Gateway/Usage/Laws.antt =====
-- What normalising and merging keep.
use d_api.Base.{false, ◌≡◌, some, arith, ℕ, ◌<◌, ◌-◌}
use d_api.Base.Int.{pos, two_63}
use d_api.Gateway.Usage.{
  Protocol, Usage, normalize_usage_for_protocol, merge, no_usage, is_messages,
}

-- Normalising again changes nothing.
pub normalize_twice :
    (u : Usage) (p : Protocol)
    → normalize_usage_for_protocol (normalize_usage_for_protocol u p) p
      ≡ normalize_usage_for_protocol u p
unfolding normalize_usage_for_protocol
normalize_twice u p = ground arith

-- Outside the messages protocol, where the input includes what was read from a cache and both
-- counts are in the range of an int64 that is not negative, the uncached count is the input less
-- the cached tokens, and 0 where more is reported as cached than as input.
pub uncached_exact :
    (u : Usage) (p : Protocol) (input cached : ℕ)
    → u.input_tokens ≡ some (pos input)
    → u.cached_input_tokens ≡ some (pos cached)
    → is_messages p ≡ false
    → input < two_63
    → cached < two_63
    → (normalize_usage_for_protocol u p).uncached_input_tokens ≡ some (pos (input - cached))
unfolding normalize_usage_for_protocol
uncached_exact u p input cached i c m h k = ground arith

-- Merging in turn is merging with what two events give together, and an event with no counts
-- changes nothing.
pub merge_assoc :
    (a b c : Usage) → (merge (merge a b) c ≡ merge a (merge b c)) × (merge a no_usage ≡ a)
unfolding merge
merge_assoc a b c = (ground arith, ground arith)
