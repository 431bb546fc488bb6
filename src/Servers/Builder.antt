-- ===== src/Servers/Builder.antt =====
-- servers/builder.rs: `From<ParsedConfig> for Server`. The parsing and printing of a socket address
-- are parameters; `none` is a panic of `Semaphore::new`.
pub mod Settings
pub mod Built
pub mod Routable
pub mod Total
pub mod Sample
mod Examples
use tls_proxy_tunnel.Base.{
  ℕ, ◌≡◌, refl, Bool, true, false, Option, none, some, List, [], ◌∷◌, ◌++◌, map, String, length,
}
use tls_proxy_tunnel.Base.Dict.{Dict, map_values}
use tls_proxy_tunnel.Base.Options.{◌>>=◌}
use tls_proxy_tunnel.Net.{SocketAddr}
use tls_proxy_tunnel.Config.Types.{ViaUpstream, SniTarget, ServerConfig, ParsedConfig}
use tls_proxy_tunnel.Upstreams.Types.{Upstream, ban, echo, health, proxy, Metrics, MetricsEntry}
use tls_proxy_tunnel.Servers.Semaphores.{SemaphoreLib}
use tls_proxy_tunnel.Servers.Types.{Proxy, Server}

abbrev pub or_text : Option String → String → String
or_text none d = d
or_text (some s) d = s

abbrev pub or_false : Option Bool → Bool
or_false none = false
or_false (some b) = b

-- Pass 1's proxy, with an empty map in the place of the upstreams.
unfoldable pub raw_proxy : String → ServerConfig → SocketAddr → ℕ → Proxy
raw_proxy name cfg addr semaphore = record {
  name = name;
  listen = addr;
  protocol = or_text cfg.protocol "tcp";
  tls = or_false cfg.tls;
  sni = cfg.sni;
  default_action = or_text cfg.default "ban";
  upstream = [];
  via = cfg.via;
  maxclients = semaphore;
  maxclients_limit = cfg.maxclients;
}

-- Pass 3's injection of the metrics.
unfoldable pub inject : Metrics → Upstream → Upstream
inject metrics (health old) = health metrics
inject metrics ban = ban
inject metrics echo = echo
inject metrics (proxy p) = proxy p

unfoldable pub set_upstream : Dict Upstream → Proxy → Proxy
set_upstream upstream p = record p { upstream = upstream }

module _ (lib : SemaphoreLib) (parse_addr : String → Option SocketAddr)
    (show_addr : SocketAddr → String) where
  open lib use {Semaphore, create}

  abbrev Store : Type 0
  Store = List Semaphore

  -- The loop over one server's `listen`; an address that does not parse is skipped.
  unfoldable pub build_listens :
      String → ServerConfig → List String → List Proxy × Store → Option (List Proxy × Store)
  unfolding raw_proxy
  build_listens name cfg [] built = some built
  build_listens name cfg (listen ∷ rest) (proxies, store) = elim (parse_addr listen) [
    | none ↦ build_listens name cfg rest (proxies, store)
    | some addr ↦ do
      semaphore ← create cfg.maxclients
      build_listens name cfg rest
          (proxies ++ raw_proxy name cfg addr (length store) ∷ [], store ++ semaphore ∷ [])
  ]

  unfoldable pub build_servers :
      Dict ServerConfig → List Proxy × Store → Option (List Proxy × Store)
  unfolding build_listens
  build_servers [] built = some built
  build_servers ((name, cfg) ∷ rest) built = do
    built' ← build_listens name cfg cfg.listen built
    build_servers rest built'

  unfoldable pub metrics_entry : Proxy → MetricsEntry
  metrics_entry p = record {
    name = p.name;
    listen = show_addr p.listen;
    maxclients_limit = p.maxclients_limit;
    semaphore = p.maxclients;
  }

  -- The server and its semaphores.
  unfoldable pub from_config : ParsedConfig → Option (Server × List Semaphore)
  unfolding build_servers metrics_entry inject set_upstream map_values
  from_config config = do
    built ← build_servers config.servers ([], [])
    let metrics = map metrics_entry built.0
    let upstream = map_values (inject metrics) config.upstream
    some (record { proxies = map (set_upstream upstream) built.0 }, built.1)
