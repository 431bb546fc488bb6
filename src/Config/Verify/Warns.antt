-- ===== src/Config/Verify/Warns.antt =====
-- config/loader.rs: the warnings of `verify_config`.
use tls_proxy_tunnel.Base.{
  ◌≡◌, refl, not, ◌&&◌, List, [], ◌∷◌, String, arith, is_one_of, str_eq, contains, Bool-cases, inl,
  inr, eq_iff, eq_refl,
}
use tls_proxy_tunnel.Base.Dict.{keys, values}
use tls_proxy_tunnel.Config.Types.{ParsedConfig}
use tls_proxy_tunnel.Config.Error.{ok, bind-ok}
use tls_proxy_tunnel.Config.Verify.{check_servers, unused, builtin_names, verify_config}
use tls_proxy_tunnel.Config.Verify.Accepts.{check_servers_sound}
use tls_proxy_tunnel.Config.Verify.Sets.{all_required}

contains-unused :
    (used ks : List String) (k : String)
    → contains (unused used ks) k
      ≡ (contains ks k && (not (contains used k) && not (is_one_of k builtin_names)))
unfolding unused contains
contains-unused used [] k = refl
contains-unused used (j ∷ ks) k = elim (Bool-cases (str_eq j k)) [
  | inl e ↦ rw ((eq_iff j k).0 e) (ground (arith, contains-unused used ks k, eq_refl k))
  | inr e ↦ ground (arith, contains-unused used ks k)
]

-- When `verify_config` accepts a configuration, it warns of exactly the defined upstreams that no
-- server refers to and that are not built in.
pub verify_config_warns :
    (config : ParsedConfig) (warned : List String) (k : String)
    → verify_config config ≡ ok (warned, config)
    → contains warned k ≡ (
        contains (keys config.upstream) k
        && (not (contains (all_required (values config.servers)) k)
            && not (is_one_of k builtin_names)))
unfolding verify_config contains
verify_config_warns config warned k h =
    let (used, e, h') = bind-ok (check_servers config.upstream (values config.servers) [] []) _ h in
    let (_, names) = check_servers_sound config.upstream (values config.servers) [] [] used e in
    let same : warned ≡ unused used (keys config.upstream) = ground arith in
    rw (same, contains-unused used (keys config.upstream) k) (ground (arith, names k))
