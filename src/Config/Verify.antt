-- ===== src/Config/Verify.antt =====
-- config/loader.rs: `verify_config`. The two sets that it fills are lists here; the order in which
-- a `HashSet` or a `HashMap` is walked is any order, here that of the list.
pub mod Sets
pub mod Accepts
pub mod Warns
pub mod Unordered
use Prim.Native.String
use tls_proxy_tunnel.Base.{
  ℕ, ◌≡◌, refl, Bool, true, false, Option, none, some, List, [], ◌∷◌, String, not, ◌&&◌, is_one_of,
  if◌then◌else◌, contains, insert_set,
}
use tls_proxy_tunnel.Base.Dict.{Dict, contains_key, keys, values}
use tls_proxy_tunnel.Config.Types.{SniTarget, upstream_name, ServerConfig, ParsedConfig}
use tls_proxy_tunnel.Config.Error.{Result, ok, err, custom, ◌>>=◌}
use tls_proxy_tunnel.Upstreams.Types.{Upstream}

abbrev pub duplicate_listen : String → String
duplicate_listen listen = String.◌++◌ "Duplicate listen address " listen

abbrev pub not_found : String → String
not_found key = String.◌++◌ "Upstream " (String.◌++◌ key " not found")

-- The loop over one server's `listen`, with the addresses seen so far.
unfoldable pub check_listens : List String → List String → Result (List String)
check_listens [] seen = ok seen
check_listens (listen ∷ rest) seen =
    if contains seen listen
    then err (custom (duplicate_listen listen))
    else check_listens rest (insert_set listen seen)

unfoldable pub insert_targets : List SniTarget → List String → List String
insert_targets [] used = used
insert_targets (t ∷ ts) used = insert_targets ts (insert_set (upstream_name t) used)

-- `server.tls.unwrap_or_default()` and the `if let` on the SNI map.
unfoldable pub sni_targets : Option Bool → Option (Dict SniTarget) → List SniTarget
sni_targets (some true) (some sni_map) = values sni_map
sni_targets (some true) none = []
sni_targets (some false) sni = []
sni_targets none sni = []

unfoldable pub insert_default : Option String → List String → List String
insert_default none used = used
insert_default (some name) used = insert_set name used

unfoldable pub insert_used : ServerConfig → List String → List String
unfolding insert_targets sni_targets insert_default
insert_used s used = insert_default s.default (insert_targets (sni_targets s.tls s.sni) used)

unfoldable pub check_used : Dict Upstream → List String → Result (Unit {0})
check_used upstream [] = ok tt
check_used upstream (key ∷ rest) =
    if contains_key upstream key then check_used upstream rest else err (custom (not_found key))

-- The loop over the servers; its result is the set of the used names.
unfoldable pub check_servers :
    Dict Upstream → List ServerConfig → (seen used : List String) → Result (List String)
check_servers upstream [] seen used = ok used
check_servers upstream (s ∷ rest) seen used = do
  seen' ← check_listens s.listen seen
  let used' = insert_used s used
  _ ← check_used upstream used'
  check_servers upstream rest seen' used'

abbrev pub builtin_names : List String
builtin_names = "echo" ∷ "ban" ∷ "health" ∷ []

-- The names that the program warns of.
unfoldable pub unused : List String → List String → List String
unused used [] = []
unused used (key ∷ rest) =
    if not (contains used key) && not (is_one_of key builtin_names)
    then key ∷ unused used rest
    else unused used rest

-- The warnings, and the configuration as it was.
unfoldable pub verify_config : ParsedConfig → Result (List String × ParsedConfig)
unfolding check_listens insert_used check_used check_servers unused
verify_config config = do
  used ← check_servers config.upstream (values config.servers) [] []
  ok (unused used (keys config.upstream), config)
