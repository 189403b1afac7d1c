-- ===== src/Gateway/AdmissionTests.antt =====
-- The handler's limits and its list of models on concrete inputs.
use d_api.Base.{String, ◌≡◌, refl, true, some, List, [], ◌∷◌, string_key, nat_key}
use d_api.Base.Maps.{lookup, retain}
use d_api.Core.{ApiKey, contains}
use d_api.Gateway.Gate.{Limits, acquire, empty}
use d_api.Gateway.Rate
use d_api.Gateway.Limits.{Configured, configure, new_limits}
use d_api.Gateway.Models.{Admission, filter_models, is_offered}

abbrev wide : Configured
wide = record {
  max_concurrent_requests = 500;
  max_concurrent_per_key = 2000;
  max_requests_per_minute = 0;
  max_request_duration = 0;
  downstream_write_timeout = 5000000000;
  max_buffered_request_bytes = 0;
  max_buffered_response_bytes = 0;
}

wide_capped : (new_limits (some wide)).max_concurrent_per_key ≡ 1000
unfolding new_limits configure
wide_capped = refl

abbrev bob : ApiKey
bob = record { id = 5; group_id = 1; enabled = true; protocols = []; models = "a" ∷ "b" ∷ [] }

abbrev offered : List String
offered = "b" ∷ "" ∷ "c" ∷ "b" ∷ "a" ∷ []

filtered : filter_models ("a" ∷ "b" ∷ []) [] offered ≡ "b" ∷ "a" ∷ []
unfolding filter_models is_offered contains
filtered = refl

abbrev narrow : Limits
narrow = record { max_concurrent_requests = 2; max_concurrent_per_key = 1 }

abbrev quiet : Admission
quiet = record { gate = empty; rate = Rate.empty }

bob_enters : (acquire bob.id narrow quiet.gate).1 ≡ true
unfolding acquire empty lookup
bob_enters = refl

bob_is_allowed : (Rate.allow bob.id 60 7 quiet.rate).1 ≡ true
unfolding Rate.allow Rate.cleanup Rate.current Rate.empty lookup retain
bob_is_allowed = refl
