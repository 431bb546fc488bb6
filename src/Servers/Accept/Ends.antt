-- ===== src/Servers/Accept/Ends.antt =====
-- servers/protocol/tcp.rs, `accept`: the task of a connection ends.
use tls_proxy_tunnel.Base.{◌≢◌, refl, inl, inr, Bool, Option, List, [], Char, String}
use tls_proxy_tunnel.Net.{IoError}
use tls_proxy_tunnel.Config.Types.{ViaUpstream}
use tls_proxy_tunnel.Upstreams.Types.{Upstream}
use tls_proxy_tunnel.Upstreams.Failure.{Failure, Result, ok, err, Result-cases}
use tls_proxy_tunnel.Upstreams.Http.{Progress, done, failed, waiting}
use tls_proxy_tunnel.Upstreams.Process.{World, Processed}
use tls_proxy_tunnel.Upstreams.Process.Ends.{Answers, process_ends}
use tls_proxy_tunnel.Servers.Types.{Proxy}
use tls_proxy_tunnel.Servers.Tls.{TlsParser}
use tls_proxy_tunnel.Servers.Routing.{
  route, unwrap_or, connect_target, Picked, found, fallback, missing, pick_upstream,
}
use tls_proxy_tunnel.Servers.Accept.{
  Inbound, Handled, handled, refused, peer_checked, read_snis, process_at, handle_picked, handle,
  after_snis, accept, returned,
}

-- The names that routing gets; a connection whose names cannot be read is not routed.
abbrev pub names_read : Result (List String) → List String
names_read (ok snis) = snis
names_read (err e) = []

returned-handled : (h : Handled) → h.result ≢ waiting → returned (handled h) ≢ waiting
unfolding returned
returned-handled h k = result_cases h.result k
  where
    result_cases :
        (r : Progress Processed)
        → r ≢ waiting
        → ◌≢◌ {A = Progress (Unit {0})}
            (elim r [ done p ↦ done tt | failed e ↦ done tt | waiting ↦ waiting ])
            waiting
    result_cases (done p) k = λ e. cc
    result_cases (failed x) k = λ e. cc
    result_cases waiting k = λ e. k refl

returned-refused : (x : Failure) → returned (refused x) ≢ waiting
unfolding returned
returned-refused x e = cc

module _ {Stream : Type 0} (is_alphanumeric : Char → Bool) (env : String → Option String)
    (show_io : IoError → String) where
  -- The sockets of a connection answer, whatever its names choose.
  abbrev pub IsAnswered : TlsParser → Proxy → Inbound → World Stream → Type 0
  IsAnswered parser p inbound w =
      let snis = names_read (read_snis parser p inbound) in
      let via = unwrap_or (route p snis).1 p.via in
      Answers is_alphanumeric env show_io via (connect_target via snis) w

  process_at-ends :
      (p : Proxy) (key name : String) (via : ViaUpstream) (target : Option String)
      (w : World Stream) (u : Upstream)
      → Answers is_alphanumeric env show_io via target w
      → returned (handled (process_at is_alphanumeric env show_io p key name via target w u))
        ≢ waiting
  unfolding process_at
  process_at-ends p key name via target w u a =
      returned-handled (process_at is_alphanumeric env show_io p key name via target w u)
        (process_ends is_alphanumeric env show_io u via target w a)

  handle_picked-ends :
      (p : Proxy) (name : String) (via : ViaUpstream) (target : Option String) (w : World Stream)
      (picked : Picked)
      → Answers is_alphanumeric env show_io via target w
      → returned (handle_picked is_alphanumeric env show_io p name via target w picked) ≢ waiting
  unfolding handle_picked
  handle_picked-ends p name via target w (found u) a = process_at-ends p name name via target w u a
  handle_picked-ends p name via target w (fallback u) a =
      process_at-ends p p.default_action name via target w u a
  handle_picked-ends p name via target w missing a = returned-refused _

  after_snis-ends :
      (p : Proxy) (w : World Stream) (r : Result (List String))
      → (let snis = names_read r in
          let via = unwrap_or (route p snis).1 p.via in
          Answers is_alphanumeric env show_io via (connect_target via snis) w)
      → returned (after_snis is_alphanumeric env show_io p w r) ≢ waiting
  unfolding after_snis handle
  after_snis-ends p w (err e) a = returned-refused e
  after_snis-ends p w (ok snis) a =
      let via = unwrap_or (route p snis).1 p.via in
      handle_picked-ends p (route p snis).0 via (connect_target via snis) w
        (pick_upstream p (route p snis).0) a

  -- If its sockets answer, the task of a connection returns, on every branch of `accept`.
  pub accept_ends :
      (parser : TlsParser) (p : Proxy) (inbound : Inbound) (w : World Stream)
      → IsAnswered parser p inbound w
      → returned (accept is_alphanumeric env show_io parser p inbound w) ≢ waiting
  unfolding accept
  accept_ends parser p inbound w a = elim (Result-cases (peer_checked p inbound)) [
    | inl (u, e) ↦ rw (e, accept) (after_snis-ends p w (read_snis parser p inbound) a)
    | inr (x, e) ↦ rw (e, accept) (returned-refused x)
  ]
