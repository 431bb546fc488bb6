-- ===== src/Servers/Routing.antt =====
-- servers/protocol/tcp.rs, `accept`: the choice of the upstream, of the `via` settings and of the
-- CONNECT target from the names in the ClientHello.
pub mod Chosen
pub mod First
mod Examples
use Prim.Native.String
use tls_proxy_tunnel.Base.{
  ℕ, Option, none, some, List, [], ◌∷◌, String, str_eq, show, if◌then◌else◌,
}
use tls_proxy_tunnel.Base.Dict.{Dict, get}
use tls_proxy_tunnel.Config.Types.{ViaUpstream, SniTarget, upstream_name, via_override}
use tls_proxy_tunnel.Upstreams.Types.{Upstream}
use tls_proxy_tunnel.Servers.Types.{Proxy}

-- `for sni in &snis { if let Some(target) = sni_map.get(sni) { …; break; } }`
unfoldable pub find_target : Dict SniTarget → List String → Option SniTarget
unfolding get
find_target sni_map [] = none
find_target sni_map (sni ∷ rest) = elim (get sni_map sni) [
  | none ↦ find_target sni_map rest
  | some target ↦ some target
]

-- The target of the map, if the ClientHello has a name, the server a map, and the map an entry.
unfoldable pub matched_target : Option (Dict SniTarget) → List String → Option SniTarget
unfolding find_target
matched_target sni [] = none
matched_target none (s ∷ ss) = none
matched_target (some sni_map) (s ∷ ss) = find_target sni_map (s ∷ ss)

-- The upstream's name and the override.
unfoldable pub select_target : String → Option SniTarget → String × Option ViaUpstream
select_target default_action none = (default_action, none)
select_target default_action (some t) = (upstream_name t, via_override t)

unfoldable pub route : Proxy → List String → String × Option ViaUpstream
unfolding matched_target select_target
route p snis = select_target p.default_action (matched_target p.sni snis)

abbrev pub unwrap_or : Option ViaUpstream → ViaUpstream → ViaUpstream
unwrap_or none via = via
unwrap_or (some v) via = v

first_target : List String → ℕ → Option String
first_target [] port = none
first_target (sni ∷ rest) port = some (String.◌++◌ sni (String.◌++◌ ":" (show port)))

unfoldable pub connect_target : ViaUpstream → List String → Option String
unfolding first_target
connect_target via snis =
    if via.use_sni_as_target
    then first_target snis via.target_port
    else if str_eq via.target ""
    then none
    else some via.target

pub data Picked : Type 0 where
  found : Upstream → Picked
  fallback : Upstream → Picked
  missing : Picked

-- The upstream of the name, or the default one with a warning, or the error.
unfoldable pub pick_upstream : Proxy → String → Picked
unfolding get
pick_upstream p name = elim (get p.upstream name) [
  | some u ↦ found u
  | none ↦ elim (get p.upstream p.default_action) [ some u ↦ fallback u | none ↦ missing ]
]
