-- ===== src/Netguard/Guarded.antt =====
-- internal/netguard/netguard.go: what a guarded connection can reach.
use d_api.Base.{
  ℕ, ◌<◌, ◌⊎◌, arith, leb, nat_beq, ◌≡◌, ◌≢◌, refl, String, Bool, true, false, Option, none, some,
  List, [], ◌∷◌, if◌then◌else◌, All, Bool-cases, inl, inr,
}
use d_api.Netguard.{
  Net, DialError, Dialed, blocked_ip, blocked_range, blocked_hostname, is_skipped, refused,
  dial_each, dial_found, dial_name, dial_host, dial_context,
}

-- An IPv4 address outside 100.64.0.0/10 and other than 169.254.169.254.
abbrev pub Outside : Option (ℕ × ℕ × ℕ × ℕ) → Type 0
Outside none = Unit
Outside (some (a, b, c, d)) =
    ((a ≢ 100) ⊎ ((b < 64) ⊎ (127 < b))) × ((a ≢ 169) ⊎ ((b ≢ 254) ⊎ ((c ≢ 169) ⊎ (d ≢ 254))))

module _ {Ip : Type 0} (x : Net Ip) where
  -- An address that a guarded connection may reach.
  abbrev pub IsPublic : Ip → Type 0
  IsPublic ip = (x.is_special ip ≡ false) × Outside (x.to_4 ip)

  free-Outside : (o : Option (ℕ × ℕ × ℕ × ℕ)) → blocked_range x o ≡ false → Outside o
  free-Outside none h = tt
  free-Outside (some (a, b, c, d)) h = (
    elim (Bool-cases (nat_beq a 100)) [
      | inr other ↦ inl (ground (arith, other))
      | inl same ↦ elim (Bool-cases (leb 64 b)) [
        | inr below ↦ inr (inl (ground (arith, below)))
        | inl above ↦ inr (inr (ground (arith, same, above, h)))
      ]
    ],
    elim (Bool-cases (nat_beq a 169)) [
      | inr other ↦ inl (ground (arith, other))
      | inl same_a ↦ elim (Bool-cases (nat_beq b 254)) [
        | inr other ↦ inr (inl (ground (arith, other)))
        | inl same_b ↦ elim (Bool-cases (nat_beq c 169)) [
          | inr other ↦ inr (inr (inl (ground (arith, other))))
          | inl same_c ↦ inr (inr (inr (ground (arith, same_a, same_b, same_c, h))))
        ]
      ]
    ],
  )

  free-IsPublic : (ip : Ip) → blocked_ip x ip ≡ false → IsPublic ip
  unfolding blocked_ip
  free-IsPublic ip h = (ground (arith, h), free-Outside (x.to_4 ip) (ground (arith, h)))

  abbrev pub Reached : String → String → Option Ip → Type 0
  Reached network port none = Unit
  Reached network port (some ip) = IsPublic ip × (x.connects network ip port ≡ true)

  -- Only such addresses are tried; a connection goes to one of them and succeeded; and there is
  -- either a connection or an error.
  abbrev pub IsSafe : String → String → Dialed Ip → Type 0
  IsSafe network port d =
      All IsPublic d.tried
      × Reached network port d.connection
      × ((d.connection ≡ none → d.error ≢ none) × (d.connection ≢ none → d.error ≡ none))

  refused-IsSafe : (network port : String) (e : DialError) → IsSafe network port (refused x e [])
  refused-IsSafe network port e = (tt, tt, ((λ _ h. absurd cc), λ h. absurd (h refl)))

  dial_each-IsSafe :
      (network port : String) (failed : Bool) (ips : List Ip)
      → IsSafe network port (dial_each x network port failed ips)
  unfolding dial_each
  dial_each-IsSafe network port failed [] =
      refused-IsSafe network port
        (if failed then DialError.not_connected else DialError.blocked_address)
  dial_each-IsSafe network port failed (ip ∷ ips) = elim (Bool-cases (blocked_ip x ip)) [
    | inl out ↦ rw (out, dial_each) (refused-IsSafe network port DialError.blocked_address)
    | inr free ↦
        rw (free, dial_each)
          (elim (Bool-cases (is_skipped x network ip)) [
            | inl other ↦ rw other (dial_each-IsSafe network port failed ips)
            | inr fits ↦ rw fits (elim (Bool-cases (x.connects network ip port)) [
              | inl done ↦ rw done (
                (free-IsPublic ip free, tt),
                (free-IsPublic ip free, done),
                ((λ h. absurd cc), λ _. refl),
              )
              | inr fails ↦
                  let (public, reached, ends) = dial_each-IsSafe network port true ips in
                  rw fails ((free-IsPublic ip free, public), reached, ends)
            ])
          ])
  ]

  dial_found-IsSafe :
      (network port : String) (ips : List Ip) → IsSafe network port (dial_found x network port ips)
  dial_found-IsSafe network port [] = refused-IsSafe network port DialError.blocked_address
  dial_found-IsSafe network port (ip ∷ ips) = dial_each-IsSafe network port false (ip ∷ ips)

  dial_name-IsSafe :
      (network port : String) (o : Option (List Ip))
      → IsSafe network port (dial_name x network port o)
  dial_name-IsSafe network port none = refused-IsSafe network port DialError.not_resolved
  dial_name-IsSafe network port (some ips) = dial_found-IsSafe network port ips

  dial_host-IsSafe :
      (network host port : String) (o : Option Ip)
      → IsSafe network port (dial_host x network host port o)
  dial_host-IsSafe network host port (some ip) = dial_found-IsSafe network port (ip ∷ [])
  dial_host-IsSafe network host port none = elim (Bool-cases (blocked_hostname x host)) [
    | inl out ↦ rw out (refused-IsSafe network port DialError.blocked_address)
    | inr free ↦ rw free (dial_name-IsSafe network port (x.lookup_ip host))
  ]

  -- Whatever a name resolves to, also if the resolver mixes addresses of all kinds, a guarded
  -- connection is tried only with addresses that are not loopback, private, link local, multicast or
  -- unspecified, not in 100.64.0.0/10 and not 169.254.169.254; if there is a connection then its
  -- address is such a one and took it, and otherwise there is an error.
  pub dial_context-IsSafe :
      (network address host port : String)
      → x.split_host_port address ≡ some (host, port)
      → IsSafe network port (dial_context x network address)
  unfolding dial_context
  dial_context-IsSafe network address host port split =
      let name = x.to_lower (x.trim_dot host) in
      rw (split, dial_context) (dial_host-IsSafe network name port (x.parse_ip name))
