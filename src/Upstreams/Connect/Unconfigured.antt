-- ===== src/Upstreams/Connect/Unconfigured.antt =====
-- upstreams/proxy_to_upstream/connect.rs with the settings of a server that has no `via` block
-- (config/types.rs).
use tls_proxy_tunnel.Base.{
  ℕ, ◌+◌, leb, if◌then◌else◌, ◌≡◌, ap, ◌∙◌, true, Option, none, some, List, String, arith,
  is_one_of,
}
use tls_proxy_tunnel.Net.{SocketAddr, IoError, IoResult, io_ok, io_err}
use tls_proxy_tunnel.Address.{UpstreamAddress, mode_of, resolve}
use tls_proxy_tunnel.Config.Yaml.{ServerYaml, read_server, timeout_or, read_server_timeouts}
use tls_proxy_tunnel.Upstreams.Failure.{Result, err}
use tls_proxy_tunnel.Upstreams.Connect.{
  Outside, protocols, timed_out, connected, timeout_at, dial_resolved, resolved_at,
  connect_upstream,
}

module _ {Stream : Type 0} (show_io : IoError → String) where
  -- The answer of a connection that takes some time, if the timer has not fired by then.
  abbrev pub in_lag : ℕ → ℕ → IoResult Stream → Result Stream
  in_lag lag delay answer = if leb delay lag then connected show_io answer else err timed_out

  timeout_at-in_lag :
      (start lag delay : ℕ) (answer : IoResult Stream)
      → (timeout_at show_io start (0 + lag) (some (delay, answer))).1 ≡ in_lag lag delay answer
  unfolding timeout_at
  timeout_at-in_lag start lag delay answer = ground arith

  dial_resolved-in_lag :
      (start lag delay : ℕ) (dial : List SocketAddr → Option (ℕ × IoResult Stream))
      (r : UpstreamAddress × IoResult (List SocketAddr)) (found : List SocketAddr)
      (answer : IoResult Stream)
      → r.1 ≡ io_ok found
      → dial found ≡ some (delay, answer)
      → (dial_resolved show_io start (0 + lag) dial r).outcome ≡ in_lag lag delay answer
  unfolding dial_resolved
  dial_resolved-in_lag start lag delay dial (addresses, io_ok xs) found answer e d =
      let same : xs ≡ found = cc in
      let attempt = ap dial same ∙ d in
      ap (λ a. (timeout_at show_io start (0 + lag) a).1) attempt
      ∙ timeout_at-in_lag start lag delay answer
  dial_resolved-in_lag start lag delay dial (addresses, io_err x) found answer e d = absurd (cc)

  connect_upstream-in_lag :
      (addresses : UpstreamAddress) (protocol : String) (o : Outside Stream)
      (found : List SocketAddr) (delay : ℕ) (answer : IoResult Stream)
      → is_one_of protocol protocols ≡ true
      → (resolve addresses (mode_of protocol) o.now o.answered o.lookup).1 ≡ io_ok found
      → o.dial found ≡ some (delay, answer)
      → (connect_upstream show_io addresses protocol 0 o).outcome ≡ in_lag o.lag delay answer
  unfolding connect_upstream
  connect_upstream-in_lag addresses protocol o found delay answer known r d =
      let start = resolved_at addresses o.now o.answered in
      let x = resolve addresses (mode_of protocol) o.now o.answered o.lookup in
      let opened : connect_upstream show_io addresses protocol 0 o
          ≡ dial_resolved show_io start (0 + o.lag) o.dial x =
        ground arith in
      ap (λ a. a.outcome) opened ∙ dial_resolved-in_lag start o.lag delay o.dial x found answer r d

  -- With the settings of a server that has no `via` block, an attempt with a known protocol and
  -- resolved addresses whose connection answers after some time comes to this answer if the time is
  -- at most the lag with which the timer fires, and times out otherwise.
  pub connect_upstream_unconfigured :
      (y : ServerYaml) (addresses : UpstreamAddress) (protocol : String) (o : Outside Stream)
      (found : List SocketAddr) (delay : ℕ) (answer : IoResult Stream)
      → y.via ≡ none
      → is_one_of protocol protocols ≡ true
      → (resolve addresses (mode_of protocol) o.now o.answered o.lookup).1 ≡ io_ok found
      → o.dial found ≡ some (delay, answer)
      → (connect_upstream show_io addresses protocol (read_server y).via.connect_timeout o).outcome
        ≡ in_lag o.lag delay answer
  connect_upstream_unconfigured y addresses protocol o found delay answer no_via known r d =
      let zero : (read_server y).via.connect_timeout ≡ 0 =
        (read_server_timeouts y).0 ∙ ap (λ v. timeout_or v 0) no_via in
      ap (λ t. (connect_upstream show_io addresses protocol t o).outcome) zero
      ∙ connect_upstream-in_lag addresses protocol o found delay answer known r d
