-- ===== src/Config/Yaml.antt =====
-- config/types.rs: what the `serde` attributes make of keys that the document leaves out. A
-- `…Yaml` record is a document's mapping, with `none` for a missing key.
use tls_proxy_tunnel.Base.{ℕ, ◌≡◌, Bool, Option, none, some, List, [], String, false, ℤ, arith}
use tls_proxy_tunnel.Base.Dict.{Dict, map_values}
use tls_proxy_tunnel.Config.Types.{
  ViaUpstream, default_via, default_connect_timeout, default_target_port, default_maxclients,
  SniTarget, simple, extended, ServerConfig, BaseConfig,
}

abbrev or_default {ℓ} : {A : Type ℓ} → Option A → A → A
or_default none d = d
or_default (some a) d = a

abbrev map_option {ℓ κ} : {A : Type ℓ} {B : Type κ} → (A → B) → Option A → Option B
map_option f none = none
map_option f (some a) = some (f a)

pub record ViaYaml : Type 0 where
  pub headers : Option (Dict String)
  pub target : Option String
  pub connect_timeout : Option ℕ
  pub use_sni_as_target : Option Bool
  pub target_port : Option ℕ
  pub stats_interval : Option ℕ

pub data SniYaml : Type 0 where
  text : String → SniYaml
  mapping : String → Option ViaYaml → SniYaml

pub record ServerYaml : Type 0 where
  pub listen : List String
  pub protocol : Option String
  pub tls : Option Bool
  pub sni : Option (Dict SniYaml)
  pub default : Option String
  pub via : Option ViaYaml
  pub maxclients : Option ℕ

pub record BaseYaml : Type 0 where
  pub version : ℤ
  pub log : Option String
  pub log_format : Option String
  pub servers : Dict ServerYaml
  pub upstream : Option (Dict String)
  pub via : Option ViaYaml

unfoldable pub read_via : ViaYaml → ViaUpstream
read_via y = record {
  headers = or_default y.headers [];
  target = or_default y.target "";
  connect_timeout = or_default y.connect_timeout default_connect_timeout;
  use_sni_as_target = or_default y.use_sni_as_target false;
  target_port = or_default y.target_port default_target_port;
  stats_interval = or_default y.stats_interval 0;
}

unfoldable pub read_sni_target : SniYaml → SniTarget
unfolding read_via
read_sni_target (text name) = simple name
read_sni_target (mapping upstream via) = extended upstream (map_option read_via via)

unfoldable pub read_server : ServerYaml → ServerConfig
unfolding read_via read_sni_target map_values
read_server y = record {
  listen = y.listen;
  protocol = y.protocol;
  tls = y.tls;
  sni = map_option (map_values read_sni_target) y.sni;
  default = y.default;
  via = or_default (map_option read_via y.via) default_via;
  maxclients = or_default y.maxclients default_maxclients;
}

unfoldable pub read_base : BaseYaml → BaseConfig
unfolding read_server
read_base y = record {
  version = y.version;
  log = y.log;
  log_format = y.log_format;
  servers = map_values read_server y.servers;
  upstream = or_default y.upstream [];
  via = or_default (map_option read_via y.via) default_via;
}

abbrev pub timeout_or : Option ViaYaml → ℕ → ℕ
timeout_or none absent = absent
timeout_or (some v) absent = or_default v.connect_timeout default_connect_timeout

abbrev pub port_or : Option ViaYaml → ℕ → ℕ
port_or none absent = absent
port_or (some v) absent = or_default v.target_port default_target_port

-- A server's connect timeout is the written one, 30 s for a `via` block without the key, and zero
-- for a server without a `via` block; its target port is likewise the written one, 443, and zero.
pub read_server_timeouts :
    (y : ServerYaml)
    → ((read_server y).via.connect_timeout ≡ timeout_or y.via 0)
      × ((read_server y).via.target_port ≡ port_or y.via 0)
unfolding read_server
read_server_timeouts y = ground arith
