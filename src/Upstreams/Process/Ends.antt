-- ===== src/Upstreams/Process/Ends.antt =====
-- upstreams/mod.rs, `Upstream::process`: it ends when the sockets have done enough.
use tls_proxy_tunnel.Base.{
  ℕ, ◌≤◌, ◌≡◌, ◌≢◌, refl, ap, ◌∙◌, inl, inr, Bool, true, ◌&&◌, Option, none, some, List, [], Char,
  String, if◌then◌else◌,
}
use tls_proxy_tunnel.Net.{IoError, IoResult, io_ok, io_err}
use tls_proxy_tunnel.Config.Types.{ViaUpstream}
use tls_proxy_tunnel.Utf8.{Bytes}
use tls_proxy_tunnel.Upstreams.Types.{Upstream, ban, echo, health, proxy}
use tls_proxy_tunnel.Upstreams.Failure.{Result, Result-cases}
use tls_proxy_tunnel.Upstreams.Http.{
  Progress, done, failed, waiting, Connected, build_request, buffer_size, http_connect,
}
use tls_proxy_tunnel.Upstreams.Http.Ends.{writes_done, reads_done, request_size, http_connect_ends}
use tls_proxy_tunnel.Upstreams.Relay.{Relay, RelayEvent, new_relay, relay, result}
use tls_proxy_tunnel.Upstreams.Relay.Copied.{counted, ends}
use tls_proxy_tunnel.Upstreams.Relay.Interleaved.{sent_events, received_events, relay-IsRelayed}
use tls_proxy_tunnel.Upstreams.Process.{
  World, Proxied, ended_relay, run_relay, relay_tunnel, ready, serve, after_connect,
  proxy_connection, as_processed, ban_connection, copy, process,
}

-- Both sides have closed, or failed.
abbrev pub BothEnd : List RelayEvent → Type 0
BothEnd events = ends (sent_events events) && ends (received_events events) ≡ true

ended_relay-ne-waiting :
    (label : String) (sent : Bytes) (r : Relay) (m n : ℕ) (o : Option (ℕ × ℕ))
    → o ≡ some (m, n)
    → ended_relay label sent r o ≢ waiting
unfolding ended_relay
ended_relay-ne-waiting label sent r m n none e = λ x. cc
ended_relay-ne-waiting label sent r m n (some (tx, rx)) e = λ x. cc

run_relay-ne-waiting :
    (label : String) (sent : Bytes) (stats_interval : ℕ) (events : List RelayEvent)
    → BothEnd events
    → run_relay label sent stats_interval events ≢ waiting
unfolding run_relay
run_relay-ne-waiting label sent stats_interval events over =
    let r = relay (new_relay stats_interval) events in
    let tx = counted (sent_events events) in
    let rx = counted (received_events events) in
    ended_relay-ne-waiting label sent r tx rx (result r) (
      (relay-IsRelayed stats_interval events).result
      ∙ ap (λ b. if◌then◌else◌ {A = Option (ℕ × ℕ)} b (some (tx, rx)) none) over)

relay_tunnel-ne-waiting :
    (label : String) (stats_interval : ℕ) (events : List RelayEvent) (t : Progress Connected)
    → t ≢ waiting
    → BothEnd events
    → relay_tunnel label stats_interval events t ≢ waiting
unfolding relay_tunnel
relay_tunnel-ne-waiting label stats_interval events (done c) h over =
    run_relay-ne-waiting label c.sent stats_interval events over
relay_tunnel-ne-waiting label stats_interval events (failed e) h over = λ x. cc
relay_tunnel-ne-waiting label stats_interval events waiting h over = λ x. h refl

as_processed-ne-waiting : (r : Progress Proxied) → r ≢ waiting → as_processed r ≢ waiting
unfolding as_processed
as_processed-ne-waiting (done p) h = λ x. cc
as_processed-ne-waiting (failed e) h = λ x. cc
as_processed-ne-waiting waiting h = λ x. h refl

ban_connection-ne-waiting : (r : IoResult (Unit {0})) → ban_connection r ≢ waiting
unfolding ban_connection
ban_connection-ne-waiting (io_ok u) = λ x. cc
ban_connection-ne-waiting (io_err e) = λ x. cc

copy-ne-waiting : (r : Option (IoResult ℕ)) → r ≢ none → copy r ≢ waiting
unfolding copy
copy-ne-waiting none h = λ x. h refl
copy-ne-waiting (some (io_ok n)) h = λ x. cc
copy-ne-waiting (some (io_err e)) h = λ x. cc

module _ (is_alphanumeric : Char → Bool) (env : String → Option String) where
  -- The bytes that are sent before the relay, if the request can be built.
  abbrev pub exchange_size : ViaUpstream → Option String → ℕ
  exchange_size via none = 0
  exchange_size via (some target) =
      request_size (build_request is_alphanumeric env target via.headers)

module _ {Stream : Type 0} (is_alphanumeric : Char → Bool) (env : String → Option String)
    (show_io : IoError → String) where
  -- The sockets answer: the copy of an echo ends, as many rounds of the write loop do something as
  -- the request has bytes, as many of the read loop as its buffer has, and both sides of a relay
  -- end.
  pub record Answers (via : ViaUpstream) (connect_target : Option String) (w : World Stream)
      : Type 0 where
    pub copied : w.copied ≢ none
    pub writes : exchange_size is_alphanumeric env via connect_target ≤ writes_done w.writes
    pub reads : buffer_size ≤ reads_done w.reads
    pub events : BothEnd w.events

  serve-ne-waiting :
      (addr : String) (via : ViaUpstream) (connect_target : Option String) (w : World Stream)
      → Answers via connect_target w
      → serve is_alphanumeric env show_io addr via connect_target w ≢ waiting
  unfolding serve
  serve-ne-waiting addr via none w a =
      run_relay-ne-waiting _ [] via.stats_interval w.events a.events
  serve-ne-waiting addr via (some target) w a =
      relay_tunnel-ne-waiting _ via.stats_interval w.events
        (http_connect is_alphanumeric env target via.headers w.writes w.reads)
        (http_connect_ends is_alphanumeric env target via.headers w.writes w.reads a.writes a.reads)
        a.events

  after_connect-ne-waiting :
      (addr : String) (via : ViaUpstream) (connect_target : Option String) (w : World Stream)
      (outcome : Result Stream)
      → Answers via connect_target w
      → after_connect is_alphanumeric env show_io addr via connect_target w outcome ≢ waiting
  unfolding after_connect
  after_connect-ne-waiting addr via connect_target w outcome a =
      elim (Result-cases (ready outcome w.outbound_nodelay w.inbound_nodelay)) [
        | inl (u, e) ↦ rw (e, after_connect) (serve-ne-waiting addr via connect_target w a)
        | inr (x, e) ↦ rw (e, after_connect) (λ h. cc)
      ]

  -- The processing of a connection, with a resolver that answers each lookup at some time, ends if
  -- the copy of an echo ends, the write loop has at least as many rounds that do not block as the
  -- CONNECT request has bytes, the read loop at least 16384 of them, and both sides of the relay
  -- close or fail.
  pub process_ends :
      (u : Upstream) (via : ViaUpstream) (connect_target : Option String) (w : World Stream)
      → Answers via connect_target w
      → (process is_alphanumeric env show_io u via connect_target w).1 ≢ waiting
  unfolding process proxy_connection
  process_ends ban via connect_target w a = ban_connection-ne-waiting w.shutdown
  process_ends echo via connect_target w a = copy-ne-waiting w.copied a.copied
  process_ends (health metrics) via connect_target w a = λ h. cc
  process_ends (proxy p) via connect_target w a =
      as_processed-ne-waiting _ (after_connect-ne-waiting p.addr via connect_target w _ a)
