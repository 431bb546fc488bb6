-- ===== src/Servers/Live/Scraped.antt =====
-- The metrics page of a running server, upstreams/mod.rs on servers/mod.rs, as a scraper of
-- Prometheus reads it.
use mathlib.Core.List.{Memᴰ}
use tls_proxy_tunnel.Base.{
  ℕ, ◌≡◌, refl, ap, ◌∙◌, true, Option, some, List, [], ◌∷◌, map, String, All, str_eq,
}
use tls_proxy_tunnel.Base.Dict.{get}
use tls_proxy_tunnel.Net.{SocketAddr, IoResult}
use tls_proxy_tunnel.Config.Types.{ParsedConfig}
use tls_proxy_tunnel.Upstreams.Types.{health, Metrics}
use tls_proxy_tunnel.Upstreams.Health.{Response, serve_connection}
use tls_proxy_tunnel.Upstreams.Health.Scraped.{Sample, read_page, samples, IsPlain}
use tls_proxy_tunnel.Upstreams.Health.Read.{read_page-page}
use tls_proxy_tunnel.Servers.Semaphores.{SemaphoreLib}
use tls_proxy_tunnel.Servers.Types.{Proxy, Server}
use tls_proxy_tunnel.Servers.Builder.{from_config}
use tls_proxy_tunnel.Servers.Builder.Built.{metrics_of}
use tls_proxy_tunnel.Servers.Shutdown.{Run}
use tls_proxy_tunnel.Servers.Live.{start_server}
use tls_proxy_tunnel.Servers.Live.Exact.{
  Asked, running_then, request, exact_body, serve_connection-run,
}

-- What a scraper reads from the bodies of some responses.
abbrev pub scrape : List Response → List (Option (List Sample))
scrape rs = map read_page (map (λ (a : Response). a.body) rs)

module _ (lib : SemaphoreLib) where
  -- The samples that the requests should get.
  abbrev pub exact_samples : Run lib → Metrics → List Asked → List (Option (List Sample))
  exact_samples r metrics qs = map (λ q. some (samples (running_then lib r q) metrics)) qs

  scrape-exact_body :
      (r : Run lib) (metrics : Metrics) (qs : List Asked)
      → All IsPlain metrics
      → All (λ (q : Asked). str_eq q.path "/metrics" ≡ true) qs
      → map read_page (map (exact_body lib r metrics) qs) ≡ exact_samples r metrics qs
  scrape-exact_body r metrics [] plain paths = refl
  scrape-exact_body r metrics (q ∷ qs) plain (path, paths) = rw path (
      rw
        (
          read_page-page (running_then lib r q) metrics plain,
          scrape-exact_body r metrics qs plain paths,
        )
        refl)

module _ (lib : SemaphoreLib) (parse_addr : String → Option SocketAddr)
    (show_addr : SocketAddr → String) where
  open lib use {Semaphore}

  -- If no server name and no printed listen address has a double quote, a backslash or a line feed,
  -- then a server that was built can be started, whatever its binds answer, and a reader of
  -- Prometheus' text format gets from each answer of a health upstream in a proxy's map to a
  -- request for `/metrics` exactly one sample for each proxy of the number of connections that hold
  -- one of its permits when the handler reads its semaphore, and one of its limit, in the order of
  -- the proxies and with its name and listen address.
  pub scrape-run :
      (config : ParsedConfig) (server : Server) (semaphores : List Semaphore)
      (bind : ℕ → IoResult (Unit {0})) (p : Proxy) (name : String) (metrics : Metrics)
      (asked : List Asked)
      → from_config lib parse_addr show_addr config ≡ some (server, semaphores)
      → Memᴰ p server.proxies
      → get p.upstream name ≡ some (health metrics)
      → All IsPlain (metrics_of lib parse_addr show_addr server)
      → All (λ (q : Asked). str_eq q.path "/metrics" ≡ true) asked
      → (r : Run lib) × (start_server lib bind server semaphores ≡ some r)
        × (scrape (serve_connection metrics (map (request lib r) asked))
            ≡ exact_samples lib r (metrics_of lib parse_addr show_addr server) asked)
  scrape-run config server semaphores bind p name metrics asked made m there plain paths =
      let (r, started, bodies) =
        serve_connection-run lib parse_addr show_addr config server semaphores bind p name metrics
          asked made m there in
      (
        r,
        started,
        ap (map read_page) bodies
            ∙ scrape-exact_body lib r (metrics_of lib parse_addr show_addr server) asked plain
                paths,
      )
