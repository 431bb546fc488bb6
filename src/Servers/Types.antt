-- ===== src/Servers/Types.antt =====
-- servers/mod.rs: a proxy for each listen address, and the server.
use tls_proxy_tunnel.Base.{ℕ, Bool, false, Option, none, some, List, String}
use tls_proxy_tunnel.Base.Dict.{Dict, get}
use tls_proxy_tunnel.Net.{SocketAddr}
use tls_proxy_tunnel.Config.Types.{ViaUpstream, SniTarget}
use tls_proxy_tunnel.Upstreams.Types.{Upstream, is_health}

-- `maxclients` is the place of the proxy's semaphore in the server's list.
pub record Proxy : Type 0 where
  pub name : String
  pub listen : SocketAddr
  pub protocol : String
  pub tls : Bool
  pub sni : Option (Dict SniTarget)
  pub default_action : String
  pub upstream : Dict Upstream
  pub via : ViaUpstream
  pub maxclients : ℕ
  pub maxclients_limit : ℕ

pub record Server : Type 0 where
  pub proxies : List Proxy

is_some_health : Option Upstream → Bool
is_some_health none = false
is_some_health (some u) = is_health u

unfoldable pub is_health_server : Proxy → Bool
unfolding is_some_health get
is_health_server p = is_some_health (get p.upstream p.default_action)
