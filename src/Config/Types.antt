-- ===== src/Config/Types.antt =====
-- config/types.rs.
use tls_proxy_tunnel.Base.{ℕ, Bool, Option, none, List, [], String, false, ℤ}
use tls_proxy_tunnel.Base.Dict.{Dict}
use tls_proxy_tunnel.Net.{seconds}
use tls_proxy_tunnel.Upstreams.Types.{Upstream}

-- Durations are in nanoseconds.
pub record ViaUpstream : Type 0 where
  pub headers : Dict String
  pub target : String
  pub connect_timeout : ℕ
  pub use_sni_as_target : Bool
  pub target_port : ℕ
  pub stats_interval : ℕ

-- `#[derive(Default)]`
abbrev pub default_via : ViaUpstream
default_via = record {
  headers = [];
  target = "";
  connect_timeout = 0;
  use_sni_as_target = false;
  target_port = 0;
  stats_interval = 0;
}

abbrev pub default_connect_timeout : ℕ
default_connect_timeout = seconds 30

abbrev pub default_target_port : ℕ
default_target_port = 443

abbrev pub default_maxclients : ℕ
default_maxclients = 100

pub data SniTarget : Type 0 where
  simple : String → SniTarget
  extended : String → Option ViaUpstream → SniTarget

abbrev pub upstream_name : SniTarget → String
upstream_name (simple name) = name
upstream_name (extended upstream via) = upstream

abbrev pub via_override : SniTarget → Option ViaUpstream
via_override (simple name) = none
via_override (extended upstream via) = via

pub record ServerConfig : Type 0 where
  pub listen : List String
  pub protocol : Option String
  pub tls : Option Bool
  pub sni : Option (Dict SniTarget)
  pub default : Option String
  pub via : ViaUpstream
  pub maxclients : ℕ

pub record BaseConfig : Type 0 where
  pub version : ℤ
  pub log : Option String
  pub log_format : Option String
  pub servers : Dict ServerConfig
  pub upstream : Dict String
  pub via : ViaUpstream

pub record ParsedConfig : Type 0 where
  pub version : ℤ
  pub log : Option String
  pub servers : Dict ServerConfig
  pub upstream : Dict Upstream

pub record Config : Type 0 where
  pub base : ParsedConfig
