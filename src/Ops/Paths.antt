-- ===== src/Ops/Paths.antt =====
-- internal/ops/probe_cache.go: the balance paths that were found, by the digest of an upstream's
-- settings. The digest is a number here.
pub mod Fresh
pub mod Tests
use d_api.Base.{
  ℕ, ◌+◌, ◌*◌, String, Bool, true, false, not, ◌&&◌, Option, none, some, List, [], ◌∷◌, ltb, leb,
  length, ◌==◌, string_key, nat_key, if◌then◌else◌,
}
use d_api.Base.Maps.{Map, lookup, insert, delete, retain}

pub record BalancePath : Type 0 where
  pub path : String
  pub expires : ℕ

abbrev pub Paths : Type 0
Paths = Map ℕ BalancePath

abbrev pub hour : ℕ
hour = 3600000000000

abbrev pub max_paths : ℕ
max_paths = 1024

-- `preferredBalancePath`: the path is empty where none is known.
unfoldable pub preferred_balance_path : ℕ → ℕ → Paths → Paths × String
preferred_balance_path key now paths = elim (lookup key paths) [
  | none ↦ (delete key paths, "")
  | some e ↦ if ltb now e.expires then (paths, e.path) else (delete key paths, "")
]

abbrev pub is_known : String → ℕ → Option BalancePath → Bool
is_known path now none = false
is_known path now (some e) = e.path == path && ltb now e.expires

-- `rememberBalancePath`: a path that is known already keeps its time.
unfoldable pub remember_balance_path : ℕ → String → ℕ → Paths → Paths
remember_balance_path key path now paths =
    if is_known path now (lookup key paths)
    then paths
    else (let kept = retain (λ k e. ltb now e.expires) paths in
        if leb max_paths (length kept)
        then kept
        else insert key (record { path = path; expires = now + hour }) kept)

unfoldable pub forget_balance_path : ℕ → Paths → Paths
forget_balance_path key paths = delete key paths
