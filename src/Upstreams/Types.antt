-- ===== src/Upstreams/Types.antt =====
-- upstreams/mod.rs and upstreams/proxy_to_upstream/mod.rs: the upstream variants and their data.
-- A semaphore is a number in the server's store (Servers/Semaphores), so that the sharing of
-- `Arc<Semaphore>` between a proxy and its metrics entry stays visible.
use tls_proxy_tunnel.Base.{ℕ, Bool, true, false, List, String}
use tls_proxy_tunnel.Address
use tls_proxy_tunnel.Address.{UpstreamAddress}

pub record MetricsEntry : Type 0 where
  pub name : String
  pub listen : String
  pub maxclients_limit : ℕ
  pub semaphore : ℕ

abbrev pub Metrics : Type 0
Metrics = List MetricsEntry

-- `addresses` is shared by all clones: each named upstream has one cache.
pub record ProxyToUpstream : Type 0 where
  pub addr : String
  pub protocol : String
  pub addresses : UpstreamAddress

-- `ProxyToUpstream::new`
unfoldable pub new : String → String → ProxyToUpstream
unfolding Address.new
new address protocol = record {
  addr = address;
  protocol = protocol;
  addresses = Address.new address;
}

pub data Upstream : Type 0 where
  ban echo : Upstream
  health : Metrics → Upstream
  proxy : ProxyToUpstream → Upstream

abbrev pub is_health : Upstream → Bool
is_health (health metrics) = true
is_health _ = false
