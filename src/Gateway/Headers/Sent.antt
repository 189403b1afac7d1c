-- ===== src/Gateway/Headers/Sent.antt =====
-- internal/gateway/transport.go: which headers of a client's request reach an upstream.
use d_api.Base.{
  ◌≡◌, refl, ap, ◌∙◌, String, Bool, false, List, [], ◌∷◌, ◌==◌, string_key, if◌then◌else◌, map,
  arith, join,
}
use d_api.Base.Maps.{lookup, lookup-insert}
use d_api.Gateway.Headers.{
  Texts, Header, among, values, hop_headers, add_each, delete_each, connection_names,
  strip_hop_headers, set, set_unless_empty, sign, forwarded, filter_headers, request_headers,
}
use d_api.Gateway.Headers.Passed.{values-delete_each, values-add_each}

module _ (x : Texts) where
  values-filter_headers :
      (k : String) (ns : List String) (source h : Header)
      → among k (map x.canonical ns) ≡ false
      → values k (filter_headers x ns source h) ≡ values k h
  unfolding filter_headers among
  values-filter_headers k [] source h other = refl
  values-filter_headers k (n ∷ ns) source h other =
      values-filter_headers k ns source (add_each x n (values (x.canonical n) source) h)
        (ground (arith, other))
      ∙ ground (arith, other, values-add_each x k n (values (x.canonical n) source) h)

  filtered :
      (k : String) (source : Header)
      → among k (map x.canonical forwarded) ≡ false
      → values k (strip_hop_headers x (filter_headers x forwarded source [])) ≡ []
  unfolding strip_hop_headers lookup
  filtered k source other =
      let h = filter_headers x forwarded source [] in
      ground (
        arith,
        values-delete_each x k hop_headers (delete_each x (connection_names x h) h),
        values-delete_each x k (connection_names x h) h,
        values-filter_headers k forwarded source [] other,
      )

  -- The names that the gateway sets itself stand apart from each other.
  pub record AreApart : Type 0 where
    pub authorization_api_key : (x.canonical "Authorization" == x.canonical "X-Api-Key") ≡ false
    pub authorization_agent : (x.canonical "Authorization" == x.canonical "User-Agent") ≡ false
    pub api_key_agent : (x.canonical "X-Api-Key" == x.canonical "User-Agent") ≡ false

  values-set :
      (k name v : String) (h : Header)
      → values k (set x name v h) ≡ (if x.canonical name == k then v ∷ [] else values k h)
  values-set k name v h = ground (arith, lookup-insert (x.canonical name) k (v ∷ []) h)

  values-set_unless_empty :
      (k name v : String) (h : Header)
      → (x.canonical name == k) ≡ false
      → values k (set_unless_empty x name v h) ≡ values k h
  values-set_unless_empty k name v h other = ground (arith, other, values-set k name v h)

  values-sign :
      (messages : Bool) (api_key agent : String) (h : Header)
      → AreApart
      → let sent = sign x messages api_key agent h in
        (values (x.canonical "Authorization") sent ≡ join "Bearer " api_key ∷ [])
        × (values (x.canonical "X-Api-Key") sent
            ≡ (if messages then api_key ∷ [] else values (x.canonical "X-Api-Key") h))
        × ((k : String)
            → (x.canonical "Authorization" == k) ≡ false
            → (x.canonical "X-Api-Key" == k) ≡ false
            → (x.canonical "User-Agent" == k) ≡ false
            → values k sent ≡ values k h)
  values-sign messages api_key agent h apart =
      let authorization = x.canonical "Authorization" in
      let own = x.canonical "X-Api-Key" in
      let bearer = join "Bearer " api_key in
      let signed = set x "Authorization" bearer h in
      let named = set_unless_empty x "User-Agent" agent signed in
      let one = λ (k : String). values-set k "Authorization" bearer h in
      let two = λ (k : String). values-set k "User-Agent" agent signed in
      let three = λ (k : String). values-set k "X-Api-Key" api_key named in
      (
        ground (
          arith,
          apart,
          one authorization,
          two authorization,
          three authorization,
          string_key.same_iff authorization own,
          string_key.same_iff authorization authorization,
          string_key.same_iff own authorization,
          string_key.same_iff (x.canonical "User-Agent") authorization,
          string_key.same_iff authorization (x.canonical "User-Agent"),
        ),
        ground (
          arith,
          apart,
          one own,
          two own,
          three own,
          string_key.same_iff authorization own,
          string_key.same_iff own own,
          string_key.same_iff (x.canonical "User-Agent") own,
          string_key.same_iff own (x.canonical "User-Agent"),
        ),
        λ k not_auth not_key not_agent.
            ground (arith, one k, two k, three k, not_auth, not_key, not_agent),
      )

  removed :
      (h : Header)
      → values
          (x.canonical "X-Api-Key")
          (delete_each x ("Content-Length" ∷ "Accept-Encoding" ∷ "X-Api-Key" ∷ []) h)
        ≡ []
  unfolding among
  removed h =
      let own = x.canonical "X-Api-Key" in
      ground (
        arith,
        values-delete_each x own ("Content-Length" ∷ "Accept-Encoding" ∷ "X-Api-Key" ∷ []) h,
        string_key.same_iff own own,
      )

  -- An upstream gets the gateway's key for it as the authorization, and as the API key exactly in the
  -- messages protocol: never the client's; and of every other canonical name that is not on the list
  -- of those to be forwarded it gets nothing.
  pub request_headers-values :
      (messages : Bool) (api_key agent : String) (source : Header)
      → AreApart
      → let sent = request_headers x messages api_key agent source in
        (values (x.canonical "Authorization") sent ≡ join "Bearer " api_key ∷ [])
        × (values (x.canonical "X-Api-Key") sent ≡ (if messages then api_key ∷ [] else []))
        × ((k : String)
            → among k (map x.canonical forwarded) ≡ false
            → (x.canonical "Authorization" == k) ≡ false
            → (x.canonical "X-Api-Key" == k) ≡ false
            → (x.canonical "User-Agent" == k) ≡ false
            → values k sent ≡ [])
  unfolding request_headers
  request_headers-values messages api_key agent source apart =
      let first = strip_hop_headers x (filter_headers x forwarded source []) in
      let names = "Content-Length" ∷ "Accept-Encoding" ∷ "X-Api-Key" ∷ [] in
      let kept = delete_each x names first in
      let (authorized, keyed, rest) = values-sign messages api_key agent kept apart in
      (
        authorized,
        keyed ∙ ap (λ vs. if messages then api_key ∷ [] else vs) (removed first),
        λ k other not_auth not_key not_agent.
            rest k not_auth not_key not_agent
            ∙ ground (arith, values-delete_each x k names first, filtered k source other),
      )
