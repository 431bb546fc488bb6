-- ===== src/Upstreams/Process/Fails.antt =====
-- upstreams/mod.rs, `Upstream::process`: the errors that it returns.
use tls_proxy_tunnel.Base.{
  ℕ, ◌≡◌, ◌≢◌, refl, ap, ◌∙◌, subst, ◌⊎◌, inl, inr, Bool, Option, none, some, List, Char, String,
  arith,
}
use tls_proxy_tunnel.Net.{IoError, IoResult, io_ok, io_err}
use tls_proxy_tunnel.Config.Types.{ViaUpstream}
use tls_proxy_tunnel.Upstreams.Types.{ProxyToUpstream, Upstream, ban, echo, health, proxy}
use tls_proxy_tunnel.Upstreams.Failure.{Failure, io_error, Result, ok, err, Result-cases}
use tls_proxy_tunnel.Upstreams.Connect.{connect_upstream}
use tls_proxy_tunnel.Upstreams.Connect.Unconnected.{IsUnconnected, connect_upstream-IsUnconnected}
use tls_proxy_tunnel.Upstreams.Http.{Progress, done, failed, waiting, Connected, build_request}
use tls_proxy_tunnel.Upstreams.Http.Refused.{IsRefusal, http_connect-IsRefusal}
use tls_proxy_tunnel.Upstreams.Relay.{Relay, RelayEvent, new_relay, relay, result}
use tls_proxy_tunnel.Upstreams.Process.{
  World, Proxied, ended_relay, nodelay, ready, run_relay, relay_tunnel, serve, after_connect,
  as_processed, ban_connection, copy, process,
}

relay_does_not_fail :
    (label : String) (sent : List ℕ) (r : Relay) (o : Option (ℕ × ℕ)) (x : Failure)
    → ended_relay label sent r o ≢ failed x
unfolding ended_relay
relay_does_not_fail label sent r none x h = cc
relay_does_not_fail label sent r (some (tx, rx)) x h = cc

run_relay_does_not_fail :
    (label : String) (stats_interval : ℕ) (events : List RelayEvent) (sent : List ℕ) (x : Failure)
    → run_relay label sent stats_interval events ≢ failed x
unfolding run_relay
run_relay_does_not_fail label stats_interval events sent x h =
    let r = relay (new_relay stats_interval) events in
    relay_does_not_fail label sent r (result r) x h

relay_tunnel-failed :
    (label : String) (stats_interval : ℕ) (events : List RelayEvent) (t : Progress Connected)
    (x : Failure)
    → relay_tunnel label stats_interval events t ≡ failed x
    → t ≡ failed x
unfolding relay_tunnel
relay_tunnel-failed label stats_interval events (done c) x h =
    absurd (run_relay_does_not_fail label stats_interval events c.sent x h)
relay_tunnel-failed label stats_interval events (failed e) x h =
    let same : e ≡ x = ground arith in ap failed same
relay_tunnel-failed label stats_interval events waiting x h = absurd (cc)

-- One of the two `set_nodelay(true)?` failed.
ready-err :
    {Stream : Type 0} (stream : Stream) (outbound inbound : IoResult (Unit {0})) (x : Failure)
    → ready (ok stream) outbound inbound ≡ err x
    → (y : IoError) × ((outbound ≡ io_err y) ⊎ (inbound ≡ io_err y)) × (io_error y ≡ x)
unfolding ready nodelay
ready-err stream (io_ok u) (io_ok v) x h = absurd (cc)
ready-err stream (io_ok u) (io_err y) x h = (y, inr refl, ground arith)
ready-err stream (io_err y) inbound x h = (y, inl refl, ground arith)

ban_connection-failed :
    (r : IoResult (Unit {0})) (x : Failure)
    → ban_connection r ≡ failed x
    → (y : IoError) × (r ≡ io_err y) × (io_error y ≡ x)
unfolding ban_connection
ban_connection-failed (io_ok u) x h = absurd (cc)
ban_connection-failed (io_err y) x h = (y, refl, ground arith)

copy_does_not_fail : (r : Option (IoResult ℕ)) (x : Failure) → copy r ≢ failed x
unfolding copy
copy_does_not_fail none x h = cc
copy_does_not_fail (some (io_ok n)) x h = cc
copy_does_not_fail (some (io_err e)) x h = cc

as_processed-failed :
    (r : Progress Proxied) (x : Failure) → as_processed r ≡ failed x → r ≡ failed x
unfolding as_processed
as_processed-failed (done p) x h = absurd (cc)
as_processed-failed (failed e) x h = let same : e ≡ x = ground arith in ap failed same
as_processed-failed waiting x h = absurd (cc)

module _ {Stream : Type 0} (is_alphanumeric : Char → Bool) (env : String → Option String)
    (show_io : IoError → String) where
  -- Why the processing of a connection failed.
  pub data IsFailure (via : ViaUpstream) (w : World Stream)
      : Upstream → Option String → Failure → Type 0 where
    not_shut_down :
        {target : Option String} (x : IoError)
        → w.shutdown ≡ io_err x
        → IsFailure via w ban target (io_error x)
    not_connected :
        {p : ProxyToUpstream} {target : Option String} {e : Failure}
        → IsUnconnected show_io p.addresses p.protocol via.connect_timeout w.outside e
        → IsFailure via w (proxy p) target e
    no_nodelay :
        {p : ProxyToUpstream} {target : Option String} (x : IoError)
        → (w.outbound_nodelay ≡ io_err x) ⊎ (w.inbound_nodelay ≡ io_err x)
        → IsFailure via w (proxy p) target (io_error x)
    no_tunnel :
        {p : ProxyToUpstream} {target : String} {e : Failure}
        → IsRefusal (build_request is_alphanumeric env target via.headers) w.writes w.reads e
        → IsFailure via w (proxy p) (some target) e

  serve-IsFailure :
      (p : ProxyToUpstream) (via : ViaUpstream) (target : Option String) (w : World Stream)
      (x : Failure)
      → serve is_alphanumeric env show_io p.addr via target w ≡ failed x
      → IsFailure via w (proxy p) target x
  unfolding serve
  serve-IsFailure p via none w x h =
      absurd (run_relay_does_not_fail _ via.stats_interval w.events _ x h)
  serve-IsFailure p via (some target) w x h = no_tunnel (
      http_connect-IsRefusal is_alphanumeric env target via.headers w.writes w.reads x
        (relay_tunnel-failed _ via.stats_interval w.events _ x h))

  ready-IsFailure :
      (p : ProxyToUpstream) (via : ViaUpstream) (target : Option String) (w : World Stream)
      (outcome : Result Stream) (x : Failure)
      → (connect_upstream show_io p.addresses p.protocol via.connect_timeout w.outside).outcome
        ≡ outcome
      → ready outcome w.outbound_nodelay w.inbound_nodelay ≡ err x
      → IsFailure via w (proxy p) target x
  unfolding ready
  ready-IsFailure p via target w (err e) x made h =
      let same : e ≡ x = ground arith in
      not_connected (
        connect_upstream-IsUnconnected show_io p.addresses p.protocol via.connect_timeout w.outside
          x (made ∙ ap err same))
  ready-IsFailure p via target w (ok stream) x made h =
      let (y, which, same) = ready-err stream w.outbound_nodelay w.inbound_nodelay x h in
      subst (IsFailure via w (proxy p) target) same (no_nodelay y which)

  after_connect-IsFailure :
      (p : ProxyToUpstream) (via : ViaUpstream) (target : Option String) (w : World Stream)
      (outcome : Result Stream) (x : Failure)
      → (connect_upstream show_io p.addresses p.protocol via.connect_timeout w.outside).outcome
        ≡ outcome
      → after_connect is_alphanumeric env show_io p.addr via target w outcome ≡ failed x
      → IsFailure via w (proxy p) target x
  unfolding after_connect
  after_connect-IsFailure p via target w outcome x made h =
      elim (Result-cases (ready outcome w.outbound_nodelay w.inbound_nodelay)) [
        | inl (u, e) ↦ serve-IsFailure p via target w x (rw (e, after_connect) at h)
        | inr (y, e) ↦
            let stopped : ◌≡◌ {A = Progress Proxied} (failed y) (failed x) =
              (rw (e, after_connect) at h) in
            let same : y ≡ x = ground arith in
            ready-IsFailure p via target w outcome x made (e ∙ ap err same)
      ]

  -- If the processing of a connection fails, the upstream is `ban`, and the error is that of
  -- `shutdown`; or it is a proxy upstream, and then its protocol is unknown, the lookup had this
  -- error, the attempt at the resolved addresses was refused before the timer of the timeout fired
  -- or had not ended by then, a `set_nodelay` had this error, or, with a CONNECT target, the
  -- request could not be built, a round of the write loop had this error, or the reads, behind some
  -- that brought bytes without a header's end, had this error, were at their end or had filled the
  -- buffer, or brought a header's end with a status that cannot be read or is not from 200 to 299.
  pub process-IsFailure :
      (u : Upstream) (via : ViaUpstream) (target : Option String) (w : World Stream) (x : Failure)
      → (process is_alphanumeric env show_io u via target w).1 ≡ failed x
      → IsFailure via w u target x
  unfolding process
  process-IsFailure ban via target w x h =
      let (y, e, same) = ban_connection-failed w.shutdown x h in
      subst (IsFailure via w ban target) same (not_shut_down y e)
  process-IsFailure echo via target w x h = absurd (copy_does_not_fail w.copied x h)
  process-IsFailure (health metrics) via target w x h = absurd (cc)
  process-IsFailure (proxy p) via target w x h =
      after_connect-IsFailure p via target w
        (connect_upstream show_io p.addresses p.protocol via.connect_timeout w.outside).outcome x
        refl (as_processed-failed _ x h)
