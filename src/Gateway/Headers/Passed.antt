-- ===== src/Gateway/Headers/Passed.antt =====
-- internal/gateway/transport.go: which headers of an upstream's response reach the client.
use d_api.Base.{
  ◌≡◌, refl, ap, ◌∙◌, String, Bool, true, false, ◌||◌, List, [], ◌∷◌, ◌++◌, ◌==◌, string_key,
  if◌then◌else◌, map, arith, inl, inr, Bool-cases, append_assoc, append_nil,
}
use d_api.Base.Maps.{lookup, insert, delete, lookup-insert, lookup-delete}
use d_api.Base.Maps.Distinct.{IsDistinct}
use d_api.Base.Maps.Every.{Every}
use d_api.Gateway.Headers.{
  Texts, Header, or_empty, among, values, names, hop_headers, preserved, blocked, add_each,
  delete_each, preserved_gateway_header, blocked_response_header, connection_names,
  strip_hop_headers, drop_unpreserved, add_unblocked, copied, copy_response_headers,
}

module _ (x : Texts) where
  pub values-delete_each :
      (k : String) (ns : List String) (h : Header)
      → values k (delete_each x ns h) ≡ (if among k (map x.canonical ns) then [] else values k h)
  unfolding delete_each among
  values-delete_each k [] h = refl
  values-delete_each k (n ∷ ns) h =
      values-delete_each k ns (delete (x.canonical n) h)
      ∙ ground (arith, lookup-delete (x.canonical n) k h)

  pub values-add_each :
      (k name : String) (vs : List String) (h : Header)
      → values k (add_each x name vs h)
        ≡ (if x.canonical name == k then values k h ++ vs else values k h)
  unfolding add_each
  values-add_each k name [] h = ground (arith, append_nil (values k h))
  values-add_each k name (v ∷ vs) h =
      let key = x.canonical name in
      let grown = or_empty (lookup key h) ++ v ∷ [] in
      values-add_each k name vs (insert key grown h)
      ∙ ground (
        arith,
        lookup-insert key k grown h,
        string_key.same_iff key k,
        append_assoc (values k h) (v ∷ []) vs,
      )

  -- A name that is its own canonical form.
  abbrev pub IsCanonical : String → Type 0
  IsCanonical k = x.canonical k ≡ k

  kept_preserved :
      (k : String) (ns : List String) (h : Header)
      → among k preserved ≡ true
      → values k (drop_unpreserved x ns h) ≡ values k h
  unfolding drop_unpreserved
  kept_preserved k [] h safe = refl
  kept_preserved k (n ∷ ns) h safe = elim (Bool-cases (preserved_gateway_header x n)) [
    | inl stays ↦ rw (stays, drop_unpreserved) (kept_preserved k ns h safe)
    | inr goes ↦
        rw (goes, drop_unpreserved)
          (kept_preserved k ns (delete (x.canonical n) h) safe
            ∙ ground (
              arith,
              goes,
              safe,
              lookup-delete (x.canonical n) k h,
              string_key.same_iff (x.canonical n) k,
            ))
  ]

  stay_gone :
      (k : String) (ns : List String) (h : Header)
      → values k h ≡ []
      → values k (drop_unpreserved x ns h) ≡ []
  unfolding drop_unpreserved
  stay_gone k [] h gone = gone
  stay_gone k (n ∷ ns) h gone = elim (Bool-cases (preserved_gateway_header x n)) [
    | inl stays ↦ rw (stays, drop_unpreserved) (stay_gone k ns h gone)
    | inr goes ↦
        rw (goes, drop_unpreserved)
          (stay_gone k ns (delete (x.canonical n) h)
            (ground (arith, gone, lookup-delete (x.canonical n) k h)))
  ]

  dropped :
      (k : String) (ns : List String) (h : Header)
      → IsCanonical k
      → among k preserved ≡ false
      → among k ns ≡ true
      → values k (drop_unpreserved x ns h) ≡ []
  unfolding drop_unpreserved among
  dropped k [] h own unsafe listed = absurd (cc)
  dropped k (n ∷ ns) h own unsafe listed = elim (Bool-cases (n == k)) [
    | inl same ↦
        let this : n ≡ k = (string_key.same_iff n k).0 same in
        let key : x.canonical n ≡ k = ap x.canonical this ∙ own in
        rw (ap (λ c. among c preserved) key ∙ unsafe, drop_unpreserved)
          (stay_gone k ns (delete (x.canonical n) h) (
            ground (
              arith,
              lookup-delete (x.canonical n) k h,
              string_key.same_iff (x.canonical n) k,
              key,
            )))
    | inr other ↦ dropped k ns _ own unsafe (ground (arith, listed, other))
  ]

  absent : (k : String) (h : Header) → among k (names h) ≡ false → values k h ≡ []
  unfolding among lookup
  absent k [] out = refl
  absent k ((n, vs) ∷ h) out = ground (arith, out, absent k h)

  values-drop_unpreserved :
      (k : String) (h : Header)
      → IsCanonical k
      → values k (drop_unpreserved x (names h) h) ≡ (if among k preserved then values k h else [])
  values-drop_unpreserved k h own = elim (Bool-cases (among k preserved)) [
    | inl safe ↦ rw safe (kept_preserved k (names h) h safe)
    | inr unsafe ↦ rw unsafe (elim (Bool-cases (among k (names h))) [
      | inl listed ↦ dropped k (names h) h own unsafe listed
      | inr out ↦ stay_gone k (names h) h (absent k h out)
    ])
  ]

  abbrev is_blocked : String → Bool
  is_blocked k = x.is_access_control k || among k blocked

  values-add_unblocked :
      (k : String) (source h : Header)
      → IsDistinct source
      → Every (λ n vs. IsCanonical n) source
      → values k (add_unblocked x source h)
        ≡ (if is_blocked k then values k h else values k h ++ values k source)
  unfolding add_unblocked lookup
  values-add_unblocked k [] h distinct own = ground (arith, append_nil (values k h))
  values-add_unblocked k ((n, vs) ∷ source) h distinct own =
      elim (Bool-cases (blocked_response_header x n)) [
        | inl out ↦
            rw (out, add_unblocked)
              (values-add_unblocked k source h distinct.1 own.1
                ∙ ground (arith, out, own.0, string_key.same_iff n k))
        | inr passes ↦
            rw (passes, add_unblocked)
              (values-add_unblocked k source (add_each x n vs h) distinct.1 own.1
                ∙ ground (
                  arith,
                  passes,
                  own.0,
                  distinct.0,
                  values-add_each k n vs h,
                  string_key.same_iff n k,
                  append_nil (values k h ++ vs),
                ))
      ]

  -- What a response keeps of the gateway's own headers, and what it takes from the upstream's.
  abbrev pub passed : String → Header → Header → List String
  passed k destination source =
      (if among k preserved then values k destination else [])
      ++ (if is_blocked k then [] else values k source)

  -- The names that the transport itself uses, and those that `Connection` lists.
  abbrev pub is_hop : String → Header → Bool
  is_hop k h =
      among k (map x.canonical hop_headers) || among k (map x.canonical (connection_names x h))

  values-copied :
      (k : String) (destination source : Header)
      → IsCanonical k
      → IsDistinct source
      → Every (λ n vs. IsCanonical n) source
      → values k (copied x destination source) ≡ passed k destination source
  values-copied k destination source own distinct all =
      values-add_unblocked k source (drop_unpreserved x (names destination) destination) distinct
        all
      ∙ ground (
        arith,
        values-drop_unpreserved k destination own,
        append_nil (if among k preserved then values k destination else []),
      )

  -- If the upstream's header has canonical names, each once, then of every canonical name the client
  -- gets the gateway's values where the name is preserved, followed by the upstream's where it is not
  -- blocked; but nothing where the name belongs to one connection or `Connection` lists it.
  pub copy_response_headers-values :
      (k : String) (destination source : Header)
      → IsCanonical k
      → IsDistinct source
      → Every (λ n vs. IsCanonical n) source
      → values k (copy_response_headers x destination source)
        ≡ (if is_hop k (copied x destination source) then [] else passed k destination source)
  unfolding copy_response_headers strip_hop_headers
  copy_response_headers-values k destination source own distinct all =
      let both = copied x destination source in
      ground (
        arith,
        values-delete_each k hop_headers (delete_each x (connection_names x both) both),
        values-delete_each k (connection_names x both) both,
        values-copied k destination source own distinct all,
      )
