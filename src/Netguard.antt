-- ===== src/Netguard.antt =====
-- internal/netguard/netguard.go: the addresses that may be connected to. `Net` stands for the
-- functions of the standard library on texts and addresses, the resolver and the connection itself.
pub mod Guarded
pub mod Tests
use d_api.Base.{
  ℕ, String, Bool, true, false, not, ◌&&◌, ◌||◌, Option, none, some, List, [], ◌∷◌, ◌==◌,
  string_key, leb, nat_beq, map, if◌then◌else◌,
}

-- `is_special` is true of the loopback, private, link local, multicast and unspecified addresses.
pub record Net (Ip : Type 0) : Type 0 where
  pub split_host_port : String → Option (String × String)
  pub to_lower : String → String
  pub trim_space : String → String
  pub trim_dot : String → String
  pub contains : String → String → Bool
  pub has_suffix : String → String → Bool
  pub parse_ip : String → Option Ip
  pub parse_port : String → Option ℕ
  pub is_special : Ip → Bool
  pub to_4 : Ip → Option (ℕ × ℕ × ℕ × ℕ)
  pub lookup_ip : String → Option (List Ip)
  pub connects : String → Ip → String → Bool

pub data DialError : Type 0 where
  invalid_address blocked_address not_resolved not_connected : DialError

-- The addresses that were tried, and the address of the connection or an error.
pub record Dialed (Ip : Type 0) : Type 0 where
  pub tried : List Ip
  pub connection : Option Ip
  pub error : Option DialError

module _ {Ip : Type 0} (x : Net Ip) where
  unfoldable pub blocked_hostname : String → Bool
  blocked_hostname raw =
      let host = x.trim_dot (x.to_lower (x.trim_space raw)) in
      if (host == "localhost" || host == "metadata.google.internal")
        || (host == "metadata" || not (x.contains host "."))
      then true
      else x.has_suffix host ".localhost" || x.has_suffix host ".local"

  abbrev pub blocked_range : Option (ℕ × ℕ × ℕ × ℕ) → Bool
  blocked_range none = false
  blocked_range (some (a, b, c, d)) =
      (nat_beq a 100 && (leb 64 b && leb b 127))
      || ((nat_beq a 169 && nat_beq b 254) && (nat_beq c 169 && nat_beq d 254))

  unfoldable pub blocked_ip : Ip → Bool
  blocked_ip ip = x.is_special ip || blocked_range (x.to_4 ip)

  abbrev pub is_v4 : Option (ℕ × ℕ × ℕ × ℕ) → Bool
  is_v4 none = false
  is_v4 (some v4) = true

  -- Whether the network asks for addresses of another kind.
  abbrev pub is_skipped : String → Ip → Bool
  is_skipped network ip =
      (network == "tcp4" && not (is_v4 (x.to_4 ip))) || (network == "tcp6" && is_v4 (x.to_4 ip))

  abbrev pub refused : DialError → List Ip → Dialed Ip
  refused e tried = record { tried = tried; connection = none; error = some e }

  -- The loop of `DialContext`; `failed` says that a connection failed before.
  unfoldable pub dial_each : String → String → Bool → List Ip → Dialed Ip
  dial_each network port failed [] =
      refused (if failed then DialError.not_connected else DialError.blocked_address) []
  dial_each network port failed (ip ∷ ips) =
      let skipped = dial_each network port failed ips in
      let later = dial_each network port true ips in
      if blocked_ip ip
      then refused DialError.blocked_address []
      else (if is_skipped network ip
          then skipped
          else (if x.connects network ip port
              then record { tried = ip ∷ []; connection = some ip; error = none }
              else record later { tried = ip ∷ later.tried }))

  abbrev pub dial_found : String → String → List Ip → Dialed Ip
  dial_found network port [] = refused DialError.blocked_address []
  dial_found network port (ip ∷ ips) = dial_each network port false (ip ∷ ips)

  abbrev pub dial_name : String → String → Option (List Ip) → Dialed Ip
  dial_name network port none = refused DialError.not_resolved []
  dial_name network port (some ips) = dial_found network port ips

  abbrev pub dial_host : String → String → String → Option Ip → Dialed Ip
  dial_host network host port (some ip) = dial_found network port (ip ∷ [])
  dial_host network host port none =
      if blocked_hostname host
      then refused DialError.blocked_address []
      else dial_name network port (x.lookup_ip host)

  unfoldable pub dial_context : String → String → Dialed Ip
  dial_context network address = elim (x.split_host_port address) [
    | none ↦ refused DialError.invalid_address []
    | some (raw, port) ↦
        let host = x.to_lower (x.trim_dot raw) in dial_host network host port (x.parse_ip host)
  ]

  abbrev pub is_port : Option ℕ → Bool
  is_port none = false
  is_port (some n) = leb 1 n && leb n 65535

  abbrev pub is_blocked_host : String → Option Ip → Bool
  is_blocked_host host none = blocked_hostname host
  is_blocked_host host (some ip) = blocked_ip ip

  abbrev pub is_absent : Option Ip → Bool
  is_absent none = true
  is_absent (some ip) = false

  -- `ValidateAddress`; `true` says that there is no error.
  unfoldable pub validate_address : String → Bool
  validate_address raw = elim (x.split_host_port (x.trim_space raw)) [
    | none ↦ false
    | some (text, port) ↦
        let host = x.trim_dot (x.to_lower text) in
        let ip = x.parse_ip host in
        (not (text == "") && is_port (x.parse_port port))
        && (not (x.contains host ":" && is_absent ip) && not (is_blocked_host host ip))
  ]
