-- ===== src/Servers/Builder/Examples.antt =====
-- Tests of the builder, and its theorems for a server with two addresses.
use mathlib.Core.List.{Memᴰ}
use tls_proxy_tunnel.Base.{ℕ, ◌^◌, ◌≡◌, ◌↔◌, refl, inl, none, some, List, [], ◌∷◌, All}
use tls_proxy_tunnel.Base.Dict.{get, contains_key}
use tls_proxy_tunnel.Config.Types.{ParsedConfig}
use tls_proxy_tunnel.Upstreams.Types.{Upstream}
use tls_proxy_tunnel.Servers.Semaphores.{counter}
use tls_proxy_tunnel.Servers.Types.{Server}
use tls_proxy_tunnel.Servers.Routing.{find_target, route, found, pick_upstream}
use tls_proxy_tunnel.Servers.Builder.Sample.{
  web, config, parse_addr, show_addr, upstreams, proxy_at, server, builds, config-IsWellFormed,
}
use tls_proxy_tunnel.Servers.Builder.Built.{IsServerOf, from_config-IsServerOf}
use tls_proxy_tunnel.Servers.Builder.Settings.{all_listeners}
use tls_proxy_tunnel.Servers.Builder.{from_config, build_servers, build_listens}
use tls_proxy_tunnel.Servers.Builder.Total.{Fits, from_config_iff}
use tls_proxy_tunnel.Servers.Builder.Routable.{pick_upstream-route_found}

from_config-IsServerOf_example : IsServerOf counter parse_addr show_addr config server (7 ∷ 7 ∷ [])
from_config-IsServerOf_example =
    from_config-IsServerOf counter parse_addr show_addr config server (7 ∷ 7 ∷ []) builds

chooses : (route (proxy_at 444 1) ("y.org" ∷ "x.org" ∷ [])).0 ≡ "echo"
unfolding route find_target get
chooses = refl

pick_upstream-route_found_example :
    (u : Upstream) × (get upstreams (route (proxy_at 444 1) ("y.org" ∷ "x.org" ∷ [])).0 ≡ some u)
    × (pick_upstream (proxy_at 444 1) (route (proxy_at 444 1) ("y.org" ∷ "x.org" ∷ [])).0 ≡ found u)
unfolding contains_key get
pick_upstream-route_found_example =
    pick_upstream-route_found counter parse_addr show_addr config server (7 ∷ 7 ∷ [])
      (proxy_at 444 1) ("y.org" ∷ "x.org" ∷ []) config-IsWellFormed refl builds
      (Memᴰ.tail (Memᴰ.head refl)) (inl refl)

from_config_iff_example :
    ((r : Server × List ℕ) × (from_config counter parse_addr show_addr config ≡ some r))
    ↔ All (Fits counter) (all_listeners parse_addr config.servers)
from_config_iff_example = from_config_iff counter parse_addr show_addr config

-- More clients than a semaphore can have permits: the builder panics.
abbrev crowded : ParsedConfig
crowded = record config { servers = ("web", record web { maxclients = 2 ^ 61 }) ∷ [] }

panics : from_config counter parse_addr show_addr crowded ≡ none
unfolding from_config build_servers build_listens
panics = refl
