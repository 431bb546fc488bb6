-- ===== src/Servers/Accept/Hello.antt =====
-- servers/protocol/tcp.rs with servers/protocol/tls.rs: a connection whose ClientHello has arrived.
use mathlib.Core.List.{Memᴰ}
use tls_proxy_tunnel.Base.{
  ◌≡◌, sym, ap, ◌∙◌, subst, inl, inr, Bool, true, Option, some, List, Char, String, All,
}
use tls_proxy_tunnel.Net.{SocketAddr, IoError, io_ok, io_err}
use tls_proxy_tunnel.Config.Types.{
  ParsedConfig, ViaUpstream, SniTarget, upstream_name, via_override,
}
use tls_proxy_tunnel.Config.Verify.Accepts.{IsWellFormed}
use tls_proxy_tunnel.Config.Verify.Sets.{IsDefined}
use tls_proxy_tunnel.Utf8.{Bytes}
use tls_proxy_tunnel.Upstreams.Failure.{Failure, ok}
use tls_proxy_tunnel.Upstreams.Process.{World}
use tls_proxy_tunnel.Servers.Semaphores.{SemaphoreLib}
use tls_proxy_tunnel.Servers.Types.{Proxy, Server}
use tls_proxy_tunnel.Servers.Tls.{TlsParser}
use tls_proxy_tunnel.Servers.Tls.Names.{IsHello, get_sni-IsHello}
use tls_proxy_tunnel.Servers.Routing.{unwrap_or}
use tls_proxy_tunnel.Servers.Routing.First.{IsUnknown, IsFirst, sni_map, route-cases}
use tls_proxy_tunnel.Servers.Builder.{from_config}
use tls_proxy_tunnel.Servers.Accept.{
  hello_buf, Inbound, Handled, handled, peeked, read_snis, accept,
}
use tls_proxy_tunnel.Servers.Accept.Choices.{
  IsSocketError, no_peer, no_peek, IsHandled, accept-IsHandled,
}

-- A socket that knows its peer, and whose first bytes hold a ClientHello with these names.
pub record IsHelloFrom (parser : TlsParser) (inbound : Inbound) (names : List String) : Type 0 where
  pub peer : SocketAddr
  pub known : inbound.peer_addr ≡ io_ok peer
  pub arrived : Bytes
  pub peeked : inbound.peek ≡ io_ok arrived
  pub hello : IsHello parser (hello_buf arrived) names

no_socket_error :
    (parser : TlsParser) (p : Proxy) (inbound : Inbound) (names : List String) (e : Failure)
    → IsHelloFrom parser inbound names
    → IsSocketError p inbound e
    → ⊥
no_socket_error parser p inbound names e i (no_peer x counted logs bad) =
    let both : io_ok i.peer ≡ io_err x = sym i.known ∙ bad in cc
no_socket_error parser p inbound names e i (no_peek x tls bad) =
    let both : io_ok i.arrived ≡ io_err x = sym i.peeked ∙ bad in cc

read_snis-IsHelloFrom :
    (parser : TlsParser) (p : Proxy) (inbound : Inbound) (names : List String)
    → p.tls ≡ true
    → IsHelloFrom parser inbound names
    → read_snis parser p inbound ≡ ok names
unfolding read_snis peeked
read_snis-IsHelloFrom parser p inbound names tls i =
    rw (tls, i.peeked, read_snis)
      (ap ok (get_sni-IsHello parser (hello_buf i.arrived) names i.hello))

-- The choices for some names: those of the first one with an entry in the server's SNI map, or of
-- the server if there is none.
pub data IsChoice (p : Proxy) (names : List String) (h : Handled) : Type 0 where
  by_name :
      (t : SniTarget)
      → IsFirst (sni_map p) names t
      → h.name ≡ upstream_name t
      → h.via ≡ unwrap_or (via_override t) p.via
      → IsChoice p names h
  by_default :
      All (IsUnknown (sni_map p)) names
      → h.name ≡ p.default_action
      → h.via ≡ p.via
      → IsChoice p names h

module _ {Stream : Type 0} (is_alphanumeric : Char → Bool) (env : String → Option String)
    (show_io : IoError → String) where
  IsChoice-IsHandled :
      (p : Proxy) (w : World Stream) (names : List String) (h : Handled)
      → IsHandled is_alphanumeric env show_io p w names h
      → IsChoice p names h
  IsChoice-IsHandled p w names h i = elim (route-cases p names) [
    | inl (e, unknown) ↦
        by_default unknown (i.name ∙ ap (λ (r : String × Option ViaUpstream). r.0) e)
          (i.via ∙ ap (λ (r : String × Option ViaUpstream). unwrap_or r.1 p.via) e)
    | inr (t, e, first) ↦
        by_name t first (i.name ∙ ap (λ (r : String × Option ViaUpstream). r.0) e)
          (i.via ∙ ap (λ (r : String × Option ViaUpstream). unwrap_or r.1 p.via) e)
  ]

  -- On a proxy with `tls: true` of a server that was built from a well-formed configuration with
  -- the `ban` upstream, a connection with a known peer, whose first bytes the TLS parser reads as
  -- one ClientHello with one server name extension that holds the UTF-8 bytes of some names, is
  -- handled by the target of the first of these names that has an entry in the server's SNI map,
  -- with the entry's override, or by the default action with the server's settings if no name has
  -- one; this upstream is in the map and processes the connection with these settings and their
  -- CONNECT target.
  pub accept-IsHelloFrom :
      (parser : TlsParser) (p : Proxy) (inbound : Inbound) (w : World Stream) (lib : SemaphoreLib)
      (parse_addr : String → Option SocketAddr) (show_addr : SocketAddr → String)
      (config : ParsedConfig) (server : Server) (semaphores : List lib.Semaphore)
      (names : List String)
      → IsWellFormed config
      → IsDefined config.upstream "ban"
      → from_config lib parse_addr show_addr config ≡ some (server, semaphores)
      → Memᴰ p server.proxies
      → p.tls ≡ true
      → IsHelloFrom parser inbound names
      → (h : Handled) × (accept is_alphanumeric env show_io parser p inbound w ≡ handled h)
        × IsChoice p names h
        × IsHandled is_alphanumeric env show_io p w names h
  accept-IsHelloFrom parser p inbound w lib parse_addr show_addr config server semaphores names wf
        ban made m tls i =
      elim (accept-IsHandled is_alphanumeric env show_io parser p inbound w lib parse_addr show_addr
        config server semaphores wf ban made m) [
          | inl (e, refusal, why) ↦ absurd (no_socket_error parser p inbound names e i why)
          | inr (h, snis, made', read, choices) ↦
              let both : ok snis ≡ ok names =
                sym read ∙ read_snis-IsHelloFrom parser p inbound names tls i in
              let same : snis ≡ names = cc in
              let c = subst (λ s. IsHandled is_alphanumeric env show_io p w s h) same choices in
              (h, made', IsChoice-IsHandled p w names h c, c)
        ]
