-- ===== src/Servers/Accept/Choices.antt =====
-- servers/protocol/tcp.rs: the connections that `accept` handles, and those that it refuses.
use mathlib.Core.List.{Memᴰ}
use tls_proxy_tunnel.Base.{
  ◌≡◌, refl, ap, ◌∙◌, ◌⊎◌, inl, inr, Bool, true, false, Option, some, List, [], Char, String, arith,
  Bool-cases,
}
use tls_proxy_tunnel.Base.Dict.{get}
use tls_proxy_tunnel.Net.{SocketAddr, IoError, io_err, IoResult-cases}
use tls_proxy_tunnel.Config.Types.{ParsedConfig}
use tls_proxy_tunnel.Config.Verify.Accepts.{IsWellFormed}
use tls_proxy_tunnel.Config.Verify.Sets.{IsDefined}
use tls_proxy_tunnel.Upstreams.Types.{Upstream}
use tls_proxy_tunnel.Upstreams.Failure.{Failure, ok, err, io_error}
use tls_proxy_tunnel.Upstreams.Process.{World, process}
use tls_proxy_tunnel.Servers.Semaphores.{SemaphoreLib}
use tls_proxy_tunnel.Servers.Types.{Proxy, Server, is_health_server}
use tls_proxy_tunnel.Servers.Tls.{TlsParser, get_sni}
use tls_proxy_tunnel.Servers.Routing.{route, unwrap_or, connect_target, found, pick_upstream}
use tls_proxy_tunnel.Servers.Builder.{from_config}
use tls_proxy_tunnel.Servers.Builder.Routable.{pick_upstream-route_found}
use tls_proxy_tunnel.Servers.Accept.{
  hello_buf, Inbound, Handled, handled, refused, peer_checked, peeked, read_snis, process_at,
  handle_picked, handle, after_snis, accept,
}

-- The two answers of the socket on which a connection is refused.
pub data IsSocketError (p : Proxy) (inbound : Inbound) : Failure → Type 0 where
  no_peer :
      (e : IoError)
      → is_health_server p ≡ false
      → inbound.logs_info ≡ true
      → inbound.peer_addr ≡ io_err e
      → IsSocketError p inbound (io_error e)
  no_peek :
      (e : IoError) → p.tls ≡ true → inbound.peek ≡ io_err e → IsSocketError p inbound (io_error e)

peer_checked-cases :
    (p : Proxy) (inbound : Inbound)
    → (peer_checked p inbound ≡ ok tt)
      ⊎ ((e : Failure) × (peer_checked p inbound ≡ err e) × IsSocketError p inbound e)
unfolding peer_checked
peer_checked-cases p inbound = elim (Bool-cases (is_health_server p)) [
  | inl health ↦ inl (rw (health, peer_checked) refl)
  | inr counted ↦ elim (Bool-cases inbound.logs_info) [
    | inr quiet ↦ inl (rw (counted, quiet, peer_checked) refl)
    | inl logs ↦ elim (IoResult-cases inbound.peer_addr) [
      | inl (a, e) ↦ inl (rw (counted, logs, e, peer_checked) refl)
      | inr (x, e) ↦
          inr (io_error x, rw (counted, logs, e, peer_checked) refl, no_peer x counted logs e)
    ]
  ]
]

read_snis-cases :
    (parser : TlsParser) (p : Proxy) (inbound : Inbound)
    → ((snis : List String) × (read_snis parser p inbound ≡ ok snis)
        × ((p.tls ≡ true) ⊎ (snis ≡ [])))
      ⊎ ((e : Failure) × (read_snis parser p inbound ≡ err e) × IsSocketError p inbound e)
unfolding read_snis peeked
read_snis-cases parser p inbound = elim (Bool-cases p.tls) [
  | inr plain ↦ inl ([], ground arith, inr refl)
  | inl tls ↦ elim (IoResult-cases inbound.peek) [
    | inl (arrived, e) ↦ inl (get_sni parser (hello_buf arrived), ground arith, inl tls)
    | inr (x, e) ↦ inr (io_error x, ground arith, no_peek x tls e)
  ]
]

module _ {Stream : Type 0} (is_alphanumeric : Char → Bool) (env : String → Option String)
    (show_io : IoError → String) where
  -- The choices of a connection that got an upstream of its server.
  pub record IsHandled (p : Proxy) (w : World Stream) (snis : List String) (h : Handled)
      : Type 0 where
    pub upstream : Upstream
    pub name : h.name ≡ (route p snis).0
    pub found : get p.upstream h.name ≡ some upstream
    pub via : h.via ≡ unwrap_or (route p snis).1 p.via
    pub target : h.target ≡ connect_target h.via snis
    pub result : h.result ≡ (process is_alphanumeric env show_io upstream h.via h.target w).1

  process_at-IsHandled :
      (p : Proxy) (w : World Stream) (snis : List String) (u : Upstream)
      → get p.upstream (route p snis).0 ≡ some u
      → IsHandled p w snis (
          process_at is_alphanumeric env show_io p
            (route p snis).0
            (route p snis).0
            (unwrap_or (route p snis).1 p.via)
            (connect_target (unwrap_or (route p snis).1 p.via) snis)
            w
            u)
  unfolding process_at
  process_at-IsHandled p w snis u e = record {
    upstream = u;
    name = refl;
    found = e;
    via = refl;
    target = refl;
    result = refl;
  }

  handle-IsHandled :
      (p : Proxy) (w : World Stream) (snis : List String) (u : Upstream)
      → get p.upstream (route p snis).0 ≡ some u
      → pick_upstream p (route p snis).0 ≡ found u
      → (h : Handled) × (handle is_alphanumeric env show_io p w snis ≡ handled h)
        × IsHandled p w snis h
  unfolding handle
  handle-IsHandled p w snis u e f =
      let name = (route p snis).0 in
      let via = unwrap_or (route p snis).1 p.via in
      let target = connect_target via snis in
      (
        process_at is_alphanumeric env show_io p name name via target w u,
        ap (handle_picked is_alphanumeric env show_io p name via target w) f,
        process_at-IsHandled p w snis u e,
      )

  accept-cases :
      (parser : TlsParser) (p : Proxy) (inbound : Inbound) (w : World Stream)
      → ((e : Failure) × (accept is_alphanumeric env show_io parser p inbound w ≡ refused e)
          × IsSocketError p inbound e)
        ⊎ ((snis : List String) × (read_snis parser p inbound ≡ ok snis)
            × ((p.tls ≡ true) ⊎ (snis ≡ []))
            × (accept is_alphanumeric env show_io parser p inbound w
                ≡ handle is_alphanumeric env show_io p w snis))
  unfolding accept
  accept-cases parser p inbound w = elim (peer_checked-cases p inbound) [
    | inr (x, e, why) ↦ inl (x, rw (e, accept) refl, why)
    | inl peer ↦ elim (read_snis-cases parser p inbound) [
      | inr (x, e, why) ↦ inl (x, rw (peer, e, accept, after_snis) refl, why)
      | inl (snis, e, tls) ↦ inr (snis, e, tls, rw (peer, e, accept, after_snis) refl)
    ]
  ]

  -- On a proxy of a server that was built from a well-formed configuration with the `ban` upstream,
  -- a connection is refused only for an error of `peer_addr` or of `peek`; otherwise it is
  -- processed by the upstream of the name that routing chose, which is in the map, with the
  -- override of the SNI entry or else the server's settings, and with the CONNECT target that these
  -- give.
  pub accept-IsHandled :
      (parser : TlsParser) (p : Proxy) (inbound : Inbound) (w : World Stream) (lib : SemaphoreLib)
      (parse_addr : String → Option SocketAddr) (show_addr : SocketAddr → String)
      (config : ParsedConfig) (server : Server) (semaphores : List lib.Semaphore)
      → IsWellFormed config
      → IsDefined config.upstream "ban"
      → from_config lib parse_addr show_addr config ≡ some (server, semaphores)
      → Memᴰ p server.proxies
      → ((e : Failure) × (accept is_alphanumeric env show_io parser p inbound w ≡ refused e)
          × IsSocketError p inbound e)
        ⊎ ((h : Handled) × (snis : List String) × (accept is_alphanumeric env show_io parser p
                inbound w
              ≡ handled h)
            × (read_snis parser p inbound ≡ ok snis)
            × IsHandled p w snis h)
  accept-IsHandled parser p inbound w lib parse_addr show_addr config server semaphores wf b made
        m =
      elim (accept-cases parser p inbound w) [
        | inl refusal ↦ inl refusal
        | inr (snis, e, tls, same) ↦
            let (u, there, picked) =
              pick_upstream-route_found lib parse_addr show_addr config server semaphores p snis wf
                b made m tls in
            let (h, e', choices) = handle-IsHandled p w snis u there picked in
            inr (h, snis, same ∙ e', e, choices)
      ]
