-- ===== src/Gateway/Usage.antt =====
-- internal/gateway/usage.go: the token counts of a response, as the protocols report them.
-- The counts are int64, and sums wrap around.
pub mod Laws
use d_api.Base.{Bool, true, false, not, ◌&&◌, Option, none, some, if◌then◌else◌}
use d_api.Base.Int.{ℤ, pos, negsuc, ◌+ℤ◌, ◌-ℤ◌, is_negative, wrap_64}

-- The protocols of core/types.go; `unknown` is the empty string, which older callers pass.
pub data Protocol : Type 0 where
  responses messages chat unknown : Protocol

abbrev pub is_messages : Protocol → Bool
is_messages messages = true
is_messages _ = false

-- `core.Usage`.
pub record Usage : Type 0 where
  pub billable_input_tokens : Option ℤ
  pub input_tokens : Option ℤ
  pub output_tokens : Option ℤ
  pub cached_input_tokens : Option ℤ
  pub cache_creation_input_tokens : Option ℤ
  pub uncached_input_tokens : Option ℤ

abbrev pub no_usage : Usage
no_usage = record {
  billable_input_tokens = none;
  input_tokens = none;
  output_tokens = none;
  cached_input_tokens = none;
  cache_creation_input_tokens = none;
  uncached_input_tokens = none;
}

-- `usageFields`, the names that the vendors use.
pub record UsageFields : Type 0 where
  pub input : Option ℤ
  pub output : Option ℤ
  pub prompt : Option ℤ
  pub completion : Option ℤ
  pub cached : Option ℤ
  pub cache_read : Option ℤ
  pub cache_creation : Option ℤ
  pub prompt_cache_hit : Option ℤ
  pub input_details_cached : Option ℤ
  pub prompt_details_cached : Option ℤ

-- `if x == nil { x = y }`.
infixr 25 ◌or_else◌
abbrev pub ◌or_else◌ : Option ℤ → Option ℤ → Option ℤ
none or_else y = y
some x or_else y = some x

abbrev pub clamp : ℤ → ℤ
clamp (pos n) = pos n
clamp (negsuc n) = pos 0

-- What is not read from a cache, out of the input that the protocol reports.
abbrev pub uncached : Protocol → ℤ → Usage → ℤ
uncached protocol input u =
    if is_messages protocol
    then (elim u.cache_creation_input_tokens [ none ↦ input | some c ↦ wrap_64 (input +ℤ c) ])
    else (elim u.cached_input_tokens [ none ↦ input | some c ↦ wrap_64 (input -ℤ c) ])

unfoldable pub normalize_usage_for_protocol : Usage → Protocol → Usage
normalize_usage_for_protocol u protocol = elim u.input_tokens [
  | none ↦ u
  | some input ↦ record u {
    billable_input_tokens = if is_messages protocol then some input else u.billable_input_tokens;
    uncached_input_tokens = some (clamp (uncached protocol input u));
  }
]

-- `parseUsageObjectForProtocol` behind the JSON decoding: `none` is a body that does not decode.
unfoldable pub parse_usage_object_for_protocol : Option UsageFields → Protocol → Usage
unfolding normalize_usage_for_protocol
parse_usage_object_for_protocol none protocol = no_usage
parse_usage_object_for_protocol (some f) protocol =
    normalize_usage_for_protocol
      (record {
        billable_input_tokens = none;
        input_tokens = f.input or_else f.prompt;
        output_tokens = f.output or_else f.completion;
        cached_input_tokens =
            f.cached
            or_else (f.cache_read
                or_else (f.input_details_cached
                    or_else (f.prompt_details_cached
                        or_else (if is_messages protocol then none else f.prompt_cache_hit))));
        cache_creation_input_tokens = f.cache_creation;
        uncached_input_tokens = none;
      })
      protocol

-- `sseUsageParser.merge`: the counts of a later event win.
unfoldable pub merge : Usage → Usage → Usage
merge old u = record old {
  input_tokens = u.input_tokens or_else old.input_tokens;
  output_tokens = u.output_tokens or_else old.output_tokens;
  cached_input_tokens = u.cached_input_tokens or_else old.cached_input_tokens;
  cache_creation_input_tokens =
      u.cache_creation_input_tokens or_else old.cache_creation_input_tokens;
  uncached_input_tokens = u.uncached_input_tokens or_else old.uncached_input_tokens;
}
