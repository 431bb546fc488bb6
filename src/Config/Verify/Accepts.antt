-- ===== src/Config/Verify/Accepts.antt =====
-- config/loader.rs: the configurations that `verify_config` accepts.
use tls_proxy_tunnel.Base.{
  ◌≡◌, refl, ◌↔◌, List, [], ◌∷◌, String, arith, contains, contains-append, All, All-append,
  All-append_left, All-append_right, Apart-nil, Distinct, Apart, IsUnion, Apart-union,
  Distinct-append,
}
use tls_proxy_tunnel.Base.Dict.{Dict, keys, values}
use tls_proxy_tunnel.Config.Types.{ServerConfig, ParsedConfig}
use tls_proxy_tunnel.Config.Error.{ok, bind-ok}
use tls_proxy_tunnel.Upstreams.Types.{Upstream}
use tls_proxy_tunnel.Config.Verify.{
  check_listens, insert_used, check_used, check_servers, unused, verify_config,
}
use tls_proxy_tunnel.Config.Verify.Sets.{
  all_listens, required, all_required, IsDefined, check_listens_sound, check_listens_complete,
  check_used_iff, insert_used-IsUnion, insert_used-All,
}

-- What a run over the servers accepts, from sets filled before.
pub record IsAccepted (upstream : Dict Upstream) (servers : List ServerConfig) (seen : List String)
    : Type 0 where
  distinct : Distinct (all_listens servers)
  apart : Apart (all_listens servers) seen
  defined : All (IsDefined upstream) (all_required servers)

pub check_servers_sound :
    (upstream : Dict Upstream) (servers : List ServerConfig) (seen used used' : List String)
    → check_servers upstream servers seen used ≡ ok used'
    → IsAccepted upstream servers seen × IsUnion used' (all_required servers) used
unfolding check_servers contains
check_servers_sound upstream [] seen used used' h =
    (record { distinct = tt; apart = tt; defined = tt }, λ k. ground arith)
check_servers_sound upstream (s ∷ rest) seen used used' h =
    let (seen', e₁, h₁) = bind-ok (check_listens s.listen seen) _ h in
    let (u, e₂, h₂) = bind-ok (check_used upstream (insert_used s used)) _ h₁ in
    let (d, a, union) = check_listens_sound s.listen seen seen' e₁ in
    let (acc, names) = check_servers_sound upstream rest seen' (insert_used s used) used' h₂ in
    let (apart_here, apart_before) =
      (Apart-union (all_listens rest) s.listen seen seen' union).0 acc.apart in
    let all_used =
      (insert_used-All (IsDefined upstream) s used).0
        ((check_used_iff upstream (insert_used s used)).0 e₂) in
    (
      record {
        distinct = (Distinct-append s.listen (all_listens rest)).1 (d, acc.distinct, apart_here);
        apart = All-append _ s.listen (all_listens rest) a apart_before;
        defined = All-append _ (required s) (all_required rest) all_used.0 acc.defined;
      },
      λ k. ground (
        arith,
        names k,
        insert_used-IsUnion s used k,
        contains-append (required s) (all_required rest) k,
      ),
    )

check_servers_complete :
    (upstream : Dict Upstream) (servers : List ServerConfig) (seen used : List String)
    → All (IsDefined upstream) used
    → IsAccepted upstream servers seen
    → (used' : List String) × (check_servers upstream servers seen used ≡ ok used')
unfolding check_servers
check_servers_complete upstream [] seen used h acc = (used, refl)
check_servers_complete upstream (s ∷ rest) seen used h acc =
    let (d, d', between) = (Distinct-append s.listen (all_listens rest)).0 acc.distinct in
    let a = All-append_left _ s.listen (all_listens rest) acc.apart in
    let a' = All-append_right _ s.listen (all_listens rest) acc.apart in
    let r = All-append_left _ (required s) (all_required rest) acc.defined in
    let r' = All-append_right _ (required s) (all_required rest) acc.defined in
    let (seen', e₁) = check_listens_complete s.listen seen d a in
    let (_, _, union) = check_listens_sound s.listen seen seen' e₁ in
    let used_here = (insert_used-All (IsDefined upstream) s used).1 (r, h) in
    let later = check_servers_complete upstream rest seen' (insert_used s used) used_here (record {
      distinct = d';
      apart = (Apart-union (all_listens rest) s.listen seen seen' union).1 (between, a');
      defined = r';
    }) in
    (later.0, rw (e₁, (check_used_iff upstream (insert_used s used)).1 used_here) later.1)

-- A verified configuration: no address is listened on twice, by any servers, and each upstream
-- name that a server refers to is in the map.
pub record IsWellFormed (config : ParsedConfig) : Type 0 where
  pub distinct : Distinct (all_listens (values config.servers))
  pub defined : All (IsDefined config.upstream) (all_required (values config.servers))

pub verify_config-IsWellFormed :
    (config : ParsedConfig) (r : List String × ParsedConfig)
    → verify_config config ≡ ok r
    → IsWellFormed config × (r.1 ≡ config)
unfolding verify_config
verify_config-IsWellFormed config r h =
    let (used, e, h') = bind-ok (check_servers config.upstream (values config.servers) [] []) _ h in
    let (acc, _) = check_servers_sound config.upstream (values config.servers) [] [] used e in
    (record { distinct = acc.distinct; defined = acc.defined }, ground arith)

-- `verify_config` accepts a configuration, and returns it unchanged, exactly when no listen address
-- stands twice and every upstream name that a server refers to (its default, and with `tls: true`
-- those of its SNI map) is defined.
pub verify_config_iff :
    (config : ParsedConfig)
    → ((warned : List String) × (verify_config config ≡ ok (warned, config))) ↔ IsWellFormed config
unfolding verify_config contains
verify_config_iff config = (
  λ h. (verify_config-IsWellFormed config (h.0, config) h.1).0,
  λ w.
      let (used, e) =
        check_servers_complete config.upstream (values config.servers) [] [] tt (record {
          distinct = w.distinct;
          apart = Apart-nil (all_listens (values config.servers));
          defined = w.defined;
        }) in
      (unused used (keys config.upstream), rw e refl),
)
