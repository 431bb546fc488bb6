-- ===== src/Cli/Served/Examples.antt =====
-- From a command line to an echoed connection.
use mathlib.Core.List.{Memᴰ}
use tls_proxy_tunnel.Base.{
  ◌≡◌, refl, ◌⊎◌, Bool, none, some, List, [], ◌∷◌, String, Option, contains, insert_set, pos, false,
}
use tls_proxy_tunnel.Base.Dict.{get, contains_key, map_values}
use tls_proxy_tunnel.Net.{SocketAddr, v4, IoResult, io_ok}
use tls_proxy_tunnel.Config.Types.{ParsedConfig}
use tls_proxy_tunnel.Config.Yaml.{ServerYaml, BaseYaml, read_server, read_base, read_sni_target}
use tls_proxy_tunnel.Config.Error.{YamlResult, yaml_ok}
use tls_proxy_tunnel.Config.Url.{Url}
use tls_proxy_tunnel.Config.Verify.{
  check_listens, insert_targets, sni_targets, insert_default, insert_used, check_used,
  check_servers, unused, verify_config,
}
use tls_proxy_tunnel.Config.Loader.{builtin_upstreams, insert_upstreams, load_config, new}
use tls_proxy_tunnel.Upstreams.Types.{ban, echo, health, MetricsEntry}
use tls_proxy_tunnel.Upstreams.Failure.{Failure, ok}
use tls_proxy_tunnel.Servers.Semaphores.{counter}
use tls_proxy_tunnel.Servers.Types.{Proxy}
use tls_proxy_tunnel.Servers.Builder.{
  from_config, inject, metrics_entry, set_upstream, build_listens, build_servers, raw_proxy,
}
use tls_proxy_tunnel.Servers.Accept.{Handled, handled, refused, read_snis, accept}
use tls_proxy_tunnel.Servers.Accept.Sample.{
  parser, no_alphanumeric, no_env, show_io, world, arrives,
}
use tls_proxy_tunnel.Servers.Accept.Choices.{IsSocketError, IsHandled}
use tls_proxy_tunnel.Cli.{serving, parse_args, run}
use tls_proxy_tunnel.Cli.Served.{run-accept}

abbrev front : ServerYaml
front = record {
  listen = "1.2.3.4:443" ∷ [];
  protocol = none;
  tls = none;
  sni = none;
  default = some "echo";
  via = none;
  maxclients = some 2;
}

abbrev document : BaseYaml
document = record {
  version = pos 2;
  log = none;
  log_format = none;
  servers = ("front", front) ∷ [];
  upstream = none;
  via = none;
}

abbrev base : ParsedConfig
base = record {
  version = pos 2;
  log = none;
  servers = (read_base document).servers;
  upstream = builtin_upstreams;
}

abbrev read_file : String → IoResult String
read_file path = io_ok "the text of the file"

abbrev from_str : String → YamlResult BaseYaml
from_str contents = yaml_ok document

abbrev parse_url : String → Option Url
parse_url value = none

abbrev exists : String → Bool
exists path = false

-- The file is named on the command line, so that it is not searched for.
starts :
    run exists (new read_file from_str parse_url false) ("--config" ∷ "tpt.yaml" ∷ []) none
    ≡ serving (record { base = base })
unfolding run parse_args new load_config insert_upstreams verify_config check_servers check_listens
    insert_used insert_targets sni_targets insert_default check_used unused contains insert_set
    contains_key get read_base read_server read_sni_target map_values
starts = refl

abbrev parse_addr : String → Option SocketAddr
parse_addr text = some (v4 0x1020304 443)

abbrev show_addr : SocketAddr → String
show_addr a = "1.2.3.4:443"

abbrev metrics : List MetricsEntry
metrics =
    record { name = "front"; listen = "1.2.3.4:443"; maxclients_limit = 2; semaphore = 0 } ∷ []

abbrev listener : Proxy
listener = record {
  name = "front";
  listen = v4 0x1020304 443;
  protocol = "tcp";
  tls = false;
  sni = none;
  default_action = "echo";
  upstream = ("ban", ban) ∷ ("echo", echo) ∷ ("health", health metrics) ∷ [];
  via = (read_server front).via;
  maxclients = 0;
  maxclients_limit = 2;
}

builds :
    from_config counter parse_addr show_addr base
    ≡ some (record { proxies = listener ∷ [] }, 2 ∷ [])
unfolding from_config inject metrics_entry map_values set_upstream build_servers build_listens
    raw_proxy read_base read_server read_sni_target
builds = refl

run-accept_example :
    ((e : Failure) × (accept no_alphanumeric no_env show_io parser listener arrives world
        ≡ refused e)
      × IsSocketError listener arrives e)
    ⊎ ((h : Handled) × (snis : List String) × (accept no_alphanumeric no_env show_io parser listener
            arrives world
          ≡ handled h)
        × (read_snis parser listener arrives ≡ ok snis)
        × IsHandled no_alphanumeric no_env show_io listener world snis h)
run-accept_example =
    run-accept read_file from_str parse_url false exists no_alphanumeric no_env show_io
      ("--config" ∷ "tpt.yaml" ∷ []) none (record { base = base }) counter parse_addr show_addr
      (record { proxies = listener ∷ [] }) (2 ∷ []) listener parser arrives world starts builds
      (Memᴰ.head refl)
