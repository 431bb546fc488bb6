-- ===== src/Upstreams/Process.antt =====
-- upstreams/mod.rs and upstreams/proxy_to_upstream/mod.rs: `Upstream::process` and
-- `ProxyToUpstream::proxy`. What the sockets do is an argument; the environment, Unicode's
-- `char::is_alphanumeric` and the texts of I/O errors are parameters.
pub mod Tunnelled
pub mod Ends
pub mod Sequence
pub mod Requested
pub mod Fails
mod Examples
use Prim.Native.String
use tls_proxy_tunnel.Base.{ℕ, Bool, true, Option, none, some, List, [], Char, String}
use tls_proxy_tunnel.Net.{IoError, IoResult, io_ok, io_err}
use tls_proxy_tunnel.Config.Types.{ViaUpstream}
use tls_proxy_tunnel.Utf8.{Bytes}
use tls_proxy_tunnel.Upstreams.Types.{Metrics, ProxyToUpstream, Upstream, ban, echo, health, proxy}
use tls_proxy_tunnel.Upstreams.Failure.{Failure, Result, ok, err, io_error, ◌>>=◌}
use tls_proxy_tunnel.Upstreams.Connect.{Outside, Attempt, connect_upstream}
use tls_proxy_tunnel.Upstreams.Http.{
  WriteEvent, ReadEvent, Progress, done, failed, waiting, Connected, http_connect,
}
use tls_proxy_tunnel.Upstreams.Relay
use tls_proxy_tunnel.Upstreams.Relay.{Relay, RelayEvent, new_relay, relay}

-- What happens around one connection: to the attempt to connect, to the two `set_nodelay`, to the
-- CONNECT exchange on the outbound socket, and to both sockets during the relay; what `shutdown`
-- answers, and how `io::copy` ends, if it does.
pub record World (Stream : Type 0) : Type 0 where
  pub outside : Outside Stream
  pub outbound_nodelay : IoResult (Unit {0})
  pub inbound_nodelay : IoResult (Unit {0})
  pub writes : List WriteEvent
  pub reads : List ReadEvent
  pub events : List RelayEvent
  pub shutdown : IoResult (Unit {0})
  pub copied : Option (IoResult ℕ)

-- A proxied connection that is over: what the upstream proxy was sent before the relay, the relay,
-- and the byte counts that are logged.
pub record Proxied : Type 0 where
  pub label : String
  pub sent : Bytes
  pub relay : Relay
  pub tx : ℕ
  pub rx : ℕ

pub data Processed : Type 0 where
  -- the connection was shut down
  banned : Processed
  -- the connection was copied to itself, and its writer shut down; the count is logged
  echoed : ℕ → Processed
  -- the task that answers health requests was spawned
  health_spawned : Metrics → Processed
  proxied : Proxied → Processed

nodelay : IoResult (Unit {0}) → Result (Unit {0})
nodelay (io_ok u) = ok u
nodelay (io_err e) = err (io_error e)

-- `connect_upstream(…).await?` and the two `set_nodelay(true)?`.
ready :
    {Stream : Type 0}
    → Result Stream
    → IoResult (Unit {0})
    → IoResult (Unit {0})
    → Result (Unit {0})
unfolding nodelay
ready outcome outbound inbound = do stream ← outcome; _ ← nodelay outbound; nodelay inbound

label_of : String → Option String → String
label_of addr (some t) = String.◌++◌ addr (String.◌++◌ " → " t)
label_of addr none = String.◌++◌ addr " (direct)"

ended_relay : String → Bytes → Relay → Option (ℕ × ℕ) → Progress Proxied
ended_relay label sent r none = waiting
ended_relay label sent r (some (tx, rx)) =
    done (record { label = label; sent = sent; relay = r; tx = tx; rx = rx })

run_relay : String → Bytes → ℕ → List RelayEvent → Progress Proxied
unfolding ended_relay relay new_relay
run_relay label sent stats_interval events =
    let r = relay (new_relay stats_interval) events in ended_relay label sent r (Relay.result r)

relay_tunnel : String → ℕ → List RelayEvent → Progress Connected → Progress Proxied
unfolding run_relay
relay_tunnel label stats_interval events (done c) = run_relay label c.sent stats_interval events
relay_tunnel label stats_interval events (failed e) = failed e
relay_tunnel label stats_interval events waiting = waiting

-- The end of `copy`: `Ok(n)`, or `Ok(0)` after an error.
copy : Option (IoResult ℕ) → Progress Processed
copy none = waiting
copy (some (io_ok n)) = done (echoed n)
copy (some (io_err e)) = done (echoed 0)

ban_connection : IoResult (Unit {0}) → Progress Processed
ban_connection (io_ok u) = done banned
ban_connection (io_err e) = failed (io_error e)

as_processed : Progress Proxied → Progress Processed
as_processed (done p) = done (proxied p)
as_processed (failed e) = failed e
as_processed waiting = waiting

module _ {Stream : Type 0} (is_alphanumeric : Char → Bool) (env : String → Option String)
    (show_io : IoError → String) where
  -- The `match connect_target` of `proxy`.
  serve : String → ViaUpstream → Option String → World Stream → Progress Proxied
  unfolding label_of run_relay relay_tunnel http_connect
  serve addr via none w = run_relay (label_of addr none) [] via.stats_interval w.events
  serve addr via (some target) w =
      relay_tunnel (label_of addr (some target)) via.stats_interval w.events
        (http_connect is_alphanumeric env target via.headers w.writes w.reads)

  -- What follows `connect_upstream`.
  after_connect :
      String → ViaUpstream → Option String → World Stream → Result Stream → Progress Proxied
  unfolding ready serve
  after_connect addr via connect_target w outcome =
      elim (ready outcome w.outbound_nodelay w.inbound_nodelay) [
        | ok u ↦ serve addr via connect_target w
        | err e ↦ failed e
      ]

  -- The upstream with its cache as it is afterwards.
  unfoldable pub proxy_connection :
      ProxyToUpstream
      → ViaUpstream
      → Option String
      → World Stream
      → ProxyToUpstream × Progress Proxied
  unfolding after_connect connect_upstream
  proxy_connection p via connect_target w =
      let attempt = connect_upstream show_io p.addresses p.protocol via.connect_timeout w.outside in
      (
        record p { addresses = attempt.addresses },
        after_connect p.addr via connect_target w attempt.outcome,
      )

  unfoldable pub process :
      Upstream → ViaUpstream → Option String → World Stream → Upstream × Progress Processed
  unfolding ban_connection copy as_processed proxy_connection
  process ban via connect_target w = (ban, ban_connection w.shutdown)
  process echo via connect_target w = (echo, copy w.copied)
  process (health metrics) via connect_target w = (health metrics, done (health_spawned metrics))
  process (proxy p) via connect_target w =
      let (p', r) = proxy_connection p via connect_target w in (proxy p', as_processed r)
