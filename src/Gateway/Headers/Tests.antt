-- ===== src/Gateway/Headers/Tests.antt =====
-- Headers of one response and one request.
use d_api.Base.{◌≡◌, refl, String, true, false, [], ◌∷◌, ◌==◌, string_key, if◌then◌else◌, map, join}
use d_api.Base.Maps.{lookup, insert, delete}
use d_api.Gateway.Headers.{
  Texts, Header, values, among, copied, forwarded, add_each, add_unblocked, drop_unpreserved,
  delete_each, strip_hop_headers, copy_response_headers, request_headers,
}
use d_api.Gateway.Headers.Passed.{is_hop, passed, copy_response_headers-values}
use d_api.Gateway.Headers.Sent.{request_headers-values}

-- Names that are canonical already, and lists of one name.
abbrev texts : Texts
texts = record {
  canonical = λ s. s;
  is_access_control = λ s. s == "Access-Control-Allow-Origin";
  split_comma = λ s. s ∷ [];
  trim_space = λ s. s;
}

abbrev gateway_headers : Header
gateway_headers = ("X-Frame-Options", "DENY" ∷ []) ∷ ("Vary", "Accept" ∷ []) ∷ []

abbrev upstream_headers : Header
upstream_headers = ("Content-Type", "application/json" ∷ []) ∷ ("Set-Cookie", "a=b" ∷ []) ∷ []

abbrev listing_headers : Header
listing_headers = ("Connection", "X-Frame-Options" ∷ []) ∷ []

copy_run :
    copy_response_headers texts gateway_headers upstream_headers
    ≡ ("X-Frame-Options", "DENY" ∷ []) ∷ ("Content-Type", "application/json" ∷ []) ∷ []
unfolding copy_response_headers add_unblocked drop_unpreserved add_each among lookup insert delete
    delete_each strip_hop_headers
copy_run = refl

-- An upstream that lists a preserved name in `Connection` has it removed.
listed_run :
    values "X-Frame-Options" (copy_response_headers texts gateway_headers listing_headers) ≡ []
unfolding copy_response_headers add_unblocked drop_unpreserved add_each among lookup insert delete
    delete_each strip_hop_headers
listed_run = refl

copy_response_headers-values_example :
    values "X-Frame-Options" (copy_response_headers texts gateway_headers upstream_headers) ≡ (
      if is_hop texts "X-Frame-Options" (copied texts gateway_headers upstream_headers)
      then []
      else passed texts "X-Frame-Options" gateway_headers upstream_headers)
unfolding lookup
copy_response_headers-values_example =
    copy_response_headers-values texts "X-Frame-Options" gateway_headers upstream_headers refl
      (refl, (refl, tt)) (refl, (refl, tt))

abbrev asked : Header
asked = ("Authorization", "Bearer mine" ∷ []) ∷ ("Cookie", "c" ∷ []) ∷ ("Accept", "*/*" ∷ []) ∷ []

request_headers-values_example :
    let sent = request_headers texts true "theirs" "" asked in
    (values "Authorization" sent ≡ join "Bearer " "theirs" ∷ [])
    × (values "X-Api-Key" sent ≡ (if true then "theirs" ∷ [] else []))
    × ((k : String)
        → among k (map texts.canonical forwarded) ≡ false
        → ("Authorization" == k) ≡ false
        → ("X-Api-Key" == k) ≡ false
        → ("User-Agent" == k) ≡ false
        → values k sent ≡ [])
request_headers-values_example =
    request_headers-values texts true "theirs" "" asked
      (record { authorization_api_key = refl; authorization_agent = refl; api_key_agent = refl })
