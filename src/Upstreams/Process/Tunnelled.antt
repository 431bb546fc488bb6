-- ===== src/Upstreams/Process/Tunnelled.antt =====
-- upstreams/mod.rs, `Upstream::process`, for a proxied connection that has ended.
use tls_proxy_tunnel.Base.{
  ℕ, ◌≡◌, ◌≢◌, inl, inr, refl, sym, ◌∙◌, subst, Bool, true, ◌&&◌, Option, none, some, List, [],
  Char, String, arith, if◌then◌else◌,
}
use tls_proxy_tunnel.Net.{IoError, IoResult, io_ok, io_err}
use tls_proxy_tunnel.Config.Types.{ViaUpstream}
use tls_proxy_tunnel.Utf8.{Bytes}
use tls_proxy_tunnel.Upstreams.Types.{ProxyToUpstream, Upstream, ban, echo, health, proxy}
use tls_proxy_tunnel.Upstreams.Failure.{Result, ok, err, Result-cases}
use tls_proxy_tunnel.Upstreams.Connect.{connect_upstream}
use tls_proxy_tunnel.Upstreams.Connect.Dialled.{IsDialled, connect_upstream-IsDialled}
use tls_proxy_tunnel.Upstreams.Http.{
  Progress, done, failed, waiting, Connected, build_request, http_connect,
}
use tls_proxy_tunnel.Upstreams.Http.Outcome.{IsTunnel, http_connect-IsTunnel}
use tls_proxy_tunnel.Upstreams.Relay.{Relay, RelayEvent, new_relay, relay, result}
use tls_proxy_tunnel.Upstreams.Relay.Copied.{counted, ends}
use tls_proxy_tunnel.Upstreams.Relay.Interleaved.{
  sent_events, received_events, IsRelayed, relay-IsRelayed,
}
use tls_proxy_tunnel.Upstreams.Process.{
  World, Proxied, proxied, ended_relay, run_relay, relay_tunnel, ready, serve, after_connect,
  as_processed, ban_connection, copy, process,
}

-- A relay that has ended, and its counts.
pub record IsRelay (p : Proxied) (events : List RelayEvent) : Type 0 where
  pub relayed : IsRelayed p.relay events
  pub over : ends (sent_events events) && ends (received_events events) ≡ true
  pub tx : p.tx ≡ counted (sent_events events)
  pub rx : p.rx ≡ counted (received_events events)

-- What the result of an ended relay says.
ended_relay-eq :
    (label : String) (sent : Bytes) (r : Relay) (o : Option (ℕ × ℕ)) (p : Proxied)
    → ended_relay label sent r o ≡ done p
    → (o ≡ some (p.tx, p.rx)) × (p.relay ≡ r) × (p.sent ≡ sent) × (p.label ≡ label)
unfolding ended_relay
ended_relay-eq label sent r none p h = absurd (cc)
ended_relay-eq label sent r (some (tx, rx)) p h =
    (ground arith, ground arith, ground arith, ground arith)

-- The value of a conditional result.
cond_some :
    (b : Bool) (m n x y : ℕ)
    → if◌then◌else◌ {A = Option (ℕ × ℕ)} b (some (m, n)) none ≡ some (x, y)
    → (b ≡ true) × (x ≡ m) × (y ≡ n)
cond_some b m n x y h = (ground arith, ground arith, ground arith)

run_relay-IsRelay :
    (label : String) (sent : Bytes) (stats_interval : ℕ) (events : List RelayEvent) (p : Proxied)
    → run_relay label sent stats_interval events ≡ done p
    → IsRelay p events × (p.sent ≡ sent) × (p.label ≡ label)
unfolding run_relay
run_relay-IsRelay label sent stats_interval events p h =
    let r = relay (new_relay stats_interval) events in
    let (e, same, sent_same, label_same) = ended_relay-eq label sent r (result r) p h in
    let x = relay-IsRelayed stats_interval events in
    let (over, tx, rx) =
      cond_some (ends (sent_events events) && ends (received_events events)) _ _ p.tx p.rx
        (sym x.result ∙ e) in
    (
      record {
        relayed = subst (λ s. IsRelayed s events) (sym same) x;
        over = over;
        tx = tx;
        rx = rx;
      },
      sent_same,
      label_same,
    )

relay_tunnel-IsRelay :
    (label : String) (stats_interval : ℕ) (events : List RelayEvent) (t : Progress Connected)
    (p : Proxied)
    → relay_tunnel label stats_interval events t ≡ done p
    → (c : Connected) × (t ≡ done c) × (p.sent ≡ c.sent) × IsRelay p events
unfolding relay_tunnel
relay_tunnel-IsRelay label stats_interval events (done c) p h =
    let (r, sent, _) = run_relay-IsRelay label c.sent stats_interval events p h in
    (c, refl, sent, r)
relay_tunnel-IsRelay label stats_interval events (failed e) p h = absurd (cc)
relay_tunnel-IsRelay label stats_interval events waiting p h = absurd (cc)

as_processed-eq :
    (r : Progress Proxied) (d : Proxied) → as_processed r ≡ done (proxied d) → r ≡ done d
unfolding as_processed
as_processed-eq (done p) d h = ground arith
as_processed-eq (failed e) d h = absurd (cc)
as_processed-eq waiting d h = absurd (cc)

ban_not_proxied : (r : IoResult (Unit {0})) (d : Proxied) → ban_connection r ≢ done (proxied d)
unfolding ban_connection
ban_not_proxied (io_ok u) d h = ground arith
ban_not_proxied (io_err e) d h = cc

echo_not_proxied : (r : Option (IoResult ℕ)) (d : Proxied) → copy r ≢ done (proxied d)
unfolding copy
echo_not_proxied none d h = cc
echo_not_proxied (some (io_ok n)) d h = ground arith
echo_not_proxied (some (io_err e)) d h = ground arith

module _ {Stream : Type 0} (is_alphanumeric : Char → Bool) (env : String → Option String)
    (show_io : IoError → String) where
  -- How the upstream was prepared: by nothing, or by a CONNECT exchange.
  pub data IsHandshake (via : ViaUpstream) (w : World Stream) (p : Proxied)
      : Option String → Type 0 where
    direct : p.sent ≡ [] → IsHandshake via w p none
    tunnel :
        {target : String} (c : Connected)
        → http_connect is_alphanumeric env target via.headers w.writes w.reads ≡ done c
        → IsTunnel (build_request is_alphanumeric env target via.headers) w.reads c
        → p.sent ≡ c.sent
        → IsHandshake via w p (some target)

  serve-IsRelay :
      (addr : String) (via : ViaUpstream) (connect_target : Option String) (w : World Stream)
      (p : Proxied)
      → serve is_alphanumeric env show_io addr via connect_target w ≡ done p
      → IsHandshake via w p connect_target × IsRelay p w.events
  unfolding serve
  serve-IsRelay addr via none w p h =
      let (r, sent, _) = run_relay-IsRelay _ [] via.stats_interval w.events p h in (direct sent, r)
  serve-IsRelay addr via (some target) w p h =
      let (c, e, sent, r) = relay_tunnel-IsRelay _ via.stats_interval w.events _ p h in
      (
        tunnel c e
            (http_connect-IsTunnel is_alphanumeric env target via.headers w.writes w.reads c e)
            sent,
        r,
      )

  after_connect-IsRelay :
      (addr : String) (via : ViaUpstream) (connect_target : Option String) (w : World Stream)
      (outcome : Result Stream) (p : Proxied)
      → after_connect is_alphanumeric env show_io addr via connect_target w outcome ≡ done p
      → (stream : Stream) × (outcome ≡ ok stream)
        × IsHandshake via w p connect_target
        × IsRelay p w.events
  unfolding after_connect ready
  after_connect-IsRelay addr via connect_target w (err e) p h = absurd (cc)
  after_connect-IsRelay addr via connect_target w (ok stream) p h =
      elim (Result-cases (ready (ok stream) w.outbound_nodelay w.inbound_nodelay)) [
        | inl (u, e) ↦
            let served : serve is_alphanumeric env show_io addr via connect_target w ≡ done p =
              (rw (e, after_connect) at h) in
            let (handshake, relayed) = serve-IsRelay addr via connect_target w p served in
            (stream, refl, handshake, relayed)
        | inr (x, e) ↦
            let bad : ◌≡◌ {A = Progress Proxied} (failed x) (done p) =
              (rw (e, after_connect) at h) in
            absurd (cc)
      ]

  -- A proxied connection that has ended well.
  pub record IsProxied (p : ProxyToUpstream) (via : ViaUpstream) (connect_target : Option String)
      (w : World Stream) (d : Proxied) : Type 0 where
    pub stream : Stream
    pub ended : ℕ
    pub dialled : IsDialled p.addresses p.protocol via.connect_timeout w.outside stream ended
    pub handshake : IsHandshake via w d connect_target
    pub relayed : IsRelay d w.events

  -- If the processing of a connection ends as a proxied one, its upstream is a proxy upstream,
  -- which was connected to at addresses from `resolve` before the timer of the timeout fired; with
  -- a CONNECT target the request was built, a beginning of it sent, and a 2xx response read before
  -- the relay, and without one nothing was sent before it; and the relay has ended in both
  -- directions, with the chunks of each written in order and counted.
  pub process-IsProxied :
      (u : Upstream) (via : ViaUpstream) (connect_target : Option String) (w : World Stream)
      (d : Proxied)
      → (process is_alphanumeric env show_io u via connect_target w).1 ≡ done (proxied d)
      → (p : ProxyToUpstream) × (u ≡ proxy p) × IsProxied p via connect_target w d
  unfolding process
  process-IsProxied ban via connect_target w d h = absurd (ban_not_proxied w.shutdown d h)
  process-IsProxied echo via connect_target w d h = absurd (echo_not_proxied w.copied d h)
  process-IsProxied (health metrics) via connect_target w d h = absurd (cc)
  process-IsProxied (proxy p) via connect_target w d h =
      let attempt = connect_upstream show_io p.addresses p.protocol via.connect_timeout w.outside in
      let (stream, e, handshake, relayed) =
        after_connect-IsRelay p.addr via connect_target w attempt.outcome d
          (as_processed-eq _ d h) in
      (
        p,
        refl,
        record {
          stream = stream;
          ended = attempt.ended;
          dialled =
              connect_upstream-IsDialled show_io p.addresses p.protocol via.connect_timeout
                w.outside stream e;
          handshake = handshake;
          relayed = relayed;
        },
      )
