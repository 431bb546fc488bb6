-- ===== src/Servers/Builder/Sample.antt =====
-- A server with two addresses and one that does not parse, for the tests of builder.rs and tcp.rs.
use tls_proxy_tunnel.Base.{
  ℕ, ◌≡◌, refl, true, Option, none, some, [], ◌∷◌, String, contains, str_eq, pos, if◌then◌else◌,
}
use tls_proxy_tunnel.Base.Dict.{Dict, get, contains_key, map_values}
use tls_proxy_tunnel.Net.{SocketAddr, v4}
use tls_proxy_tunnel.Config.Types.{default_via, simple, ServerConfig, ParsedConfig}
use tls_proxy_tunnel.Config.Verify.{sni_targets}
use tls_proxy_tunnel.Config.Verify.Accepts.{IsWellFormed}
use tls_proxy_tunnel.Upstreams.Types.{Upstream, ban, echo, health, MetricsEntry}
use tls_proxy_tunnel.Servers.Semaphores.{counter}
use tls_proxy_tunnel.Servers.Types.{Proxy, Server}
use tls_proxy_tunnel.Servers.Builder.{
  from_config, inject, metrics_entry, set_upstream, build_listens, build_servers, raw_proxy,
}

abbrev pub web : ServerConfig
web = record {
  listen = "1.2.3.4:443" ∷ "nonsense" ∷ "1.2.3.4:444" ∷ [];
  protocol = none;
  tls = some true;
  sni = some (("x.org", simple "echo") ∷ []);
  default = none;
  via = default_via;
  maxclients = 7;
}

abbrev pub config : ParsedConfig
config = record {
  version = pos 1;
  log = none;
  servers = ("web", web) ∷ [];
  upstream = ("ban", ban) ∷ ("echo", echo) ∷ ("health", health []) ∷ [];
}

abbrev pub parse_addr : String → Option SocketAddr
parse_addr text =
    if str_eq text "1.2.3.4:443"
    then some (v4 0x1020304 443)
    else if str_eq text "1.2.3.4:444"
    then some (v4 0x1020304 444)
    else none

abbrev pub show_addr : SocketAddr → String
show_addr a = "an address"

abbrev pub entry : ℕ → MetricsEntry
entry i = record { name = "web"; listen = "an address"; maxclients_limit = 7; semaphore = i }

abbrev pub upstreams : Dict Upstream
upstreams = ("ban", ban) ∷ ("echo", echo) ∷ ("health", health (entry 0 ∷ entry 1 ∷ [])) ∷ []

abbrev pub proxy_at : ℕ → ℕ → Proxy
proxy_at port i = record {
  name = "web";
  listen = v4 0x1020304 port;
  protocol = "tcp";
  tls = true;
  sni = some (("x.org", simple "echo") ∷ []);
  default_action = "ban";
  upstream = upstreams;
  via = default_via;
  maxclients = i;
  maxclients_limit = 7;
}

abbrev pub server : Server
server = record { proxies = proxy_at 443 0 ∷ proxy_at 444 1 ∷ [] }

pub builds : from_config counter parse_addr show_addr config ≡ some (server, 7 ∷ 7 ∷ [])
unfolding from_config inject metrics_entry map_values set_upstream build_servers build_listens
    raw_proxy
builds = refl

pub config-IsWellFormed : IsWellFormed config
unfolding sni_targets contains contains_key get
config-IsWellFormed = record { distinct = (refl, (refl, (refl, tt))); defined = (refl, tt) }
