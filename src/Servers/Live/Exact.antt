-- ===== src/Servers/Live/Exact.antt =====
-- The metrics page of a running server, upstreams/mod.rs on servers/mod.rs: the numbers on it are
-- those of the connections that run.
use mathlib.Core.List.{Memᴰ}
use mathlib.Core.List.Memᴰ
use tls_proxy_tunnel.Base.{
  ℕ, zero, suc, false, ◌+◌, ◌≡◌, refl, sym, ap, ◌∙◌, subst, Option, none, some, List, [], ◌∷◌, map,
  String, arith, str_eq, All, get_elem?, if◌then◌else◌, Option-cases, inl, inr,
}
use tls_proxy_tunnel.Base.Options.{◌>>=◌}
use tls_proxy_tunnel.Base.Dict.{Dict, get, map_values, get-map_values-some, get-map_values-none}
use tls_proxy_tunnel.Net.{SocketAddr, IoResult}
use tls_proxy_tunnel.Config.Types.{ParsedConfig}
use tls_proxy_tunnel.Upstreams.Types.{Upstream, ban, echo, health, proxy, Metrics}
use tls_proxy_tunnel.Upstreams.Health.{Response, Request, serve_connection}
use tls_proxy_tunnel.Upstreams.Health.Page.{unlines, page, Accounts, health_handler_lem}
use tls_proxy_tunnel.Servers.Semaphores.{SemaphoreLib}
use tls_proxy_tunnel.Servers.Types.{Proxy, Server}
use tls_proxy_tunnel.Servers.Builder.{inject, metrics_entry, from_config}
use tls_proxy_tunnel.Servers.Builder.Built.{metrics_of, from_config-IsServerOf}
use tls_proxy_tunnel.Servers.Builder.Settings.{Setting, proxies_from, all_listeners}
use tls_proxy_tunnel.Servers.Shutdown.{Task, Run, RunEvent, run}
use tls_proxy_tunnel.Servers.Live.{start_tasks, start_server, permits_at, running_at}
use tls_proxy_tunnel.Servers.Live.Started.{Balanced, run-Balanced, start_tasks-Balanced}

module _ (lib : SemaphoreLib) where
  permits_at-Balanced :
      (xs : List Setting) (ts : List (Task lib)) (i : ℕ) (x : Setting)
      → Balanced lib xs ts
      → get_elem? xs i ≡ some x
      → permits_at lib ts i + running_at lib ts i ≡ x.config.maxclients
  permits_at-Balanced [] ts i x b e = absurd (cc)
  permits_at-Balanced (y ∷ xs) [] i x b e = absurd b
  permits_at-Balanced (y ∷ xs) (t ∷ ts) zero x b e = let same : y ≡ x = cc in rw (sym same) b.0
  permits_at-Balanced (y ∷ xs) (t ∷ ts) (suc i) x b e = permits_at-Balanced xs ts i x b.1 e

-- A health upstream of the built map has the metrics that were injected.
get-inject :
    (metrics metrics' : Metrics) (m : Dict Upstream) (k : String)
    → get (map_values (inject metrics) m) k ≡ some (health metrics')
    → metrics' ≡ metrics
unfolding inject
get-inject metrics metrics' m k h = elim (Option-cases (get m k)) [
  | inl e ↦
      let absent = get-map_values-none (inject metrics) m k e in
      let bad : ◌≡◌ {A = Option Upstream} none (some (health metrics')) = sym absent ∙ h in
      absurd (cc)
  | inr (ban, e) ↦
      let bad : ◌≡◌ {A = Option Upstream} (some ban) (some (health metrics')) =
        sym (get-map_values-some (inject metrics) m k ban e) ∙ h in
      absurd (ground arith)
  | inr (echo, e) ↦
      let bad : ◌≡◌ {A = Option Upstream} (some echo) (some (health metrics')) =
        sym (get-map_values-some (inject metrics) m k echo e) ∙ h in
      absurd (ground arith)
  | inr (proxy p, e) ↦
      let bad : ◌≡◌ {A = Option Upstream} (some (proxy p)) (some (health metrics')) =
        sym (get-map_values-some (inject metrics) m k (proxy p) e) ∙ h in
      absurd (ground arith)
  | inr (health old, e) ↦
      let good : ◌≡◌ {A = Option Upstream} (some (health metrics)) (some (health metrics')) =
        sym (get-map_values-some (inject metrics) m k (health old) e) ∙ h in
      ground arith
]

-- A request's path, and the events that the server had seen when the handler read the semaphore
-- at each place.
pub record Asked : Type 0 where
  pub path : String
  pub before : ℕ → List RunEvent

-- The proxies of a server share the map.
proxies_from-upstream :
    (u : Dict Upstream) (i : ℕ) (xs : List Setting) (p : Proxy)
    → Memᴰ p (proxies_from u i xs)
    → p.upstream ≡ u
proxies_from-upstream u i [] p m = absurd (Memᴰ.not-nil m)
proxies_from-upstream u i (x ∷ xs) p m = elim (Memᴰ.cases_cons m) [
  | inl e ↦ rw e refl
  | inr later ↦ proxies_from-upstream u (suc i) xs p later
]

module _ (lib : SemaphoreLib) where
  -- The connections that hold a permit at each place, when the handler reads it.
  abbrev pub running_then : Run lib → Asked → ℕ → ℕ
  running_then r q i = running_at lib (run lib r (q.before i)).tasks i

  abbrev pub request : Run lib → Asked → Request
  request r q = record {
    path = q.path;
    available_permits = λ i. permits_at lib (run lib r (q.before i)).tasks i;
  }

  -- The body that a request should get.
  abbrev pub exact_body : Run lib → Metrics → Asked → String
  exact_body r metrics q =
      if str_eq q.path "/metrics" then unlines (page (running_then r q) metrics) else "OK"

  serve_connection-exact :
      (r : Run lib) (metrics : Metrics) (asked : List Asked)
      → ((q : Asked) → All (Accounts (request r q).available_permits (running_then r q)) metrics)
      → map (λ (a : Response). a.body) (serve_connection metrics (map (request r) asked))
        ≡ map (exact_body r metrics) asked
  unfolding serve_connection
  serve_connection-exact r metrics [] h = refl
  serve_connection-exact r metrics (q ∷ qs) h =
      let here =
        health_handler_lem (request r q).available_permits (running_then r q) q.path metrics
          (h q) in
      let later = serve_connection-exact r metrics qs h in rw (here, later) refl

module _ (lib : SemaphoreLib) (parse_addr : String → Option SocketAddr)
    (show_addr : SocketAddr → String) where
  open lib use {Semaphore}

  -- The entries of proxies from place `i` on, if the permits and the connections at each place are
  -- the limit together.
  All-Accounts :
      (available running : ℕ → ℕ) (u : Dict Upstream) (xs : List Setting) (i : ℕ)
      → ((k j : ℕ) (x : Setting)
          → j ≡ i + k
          → get_elem? xs k ≡ some x
          → available j + running j ≡ x.config.maxclients)
      → All
          (Accounts available running)
          (map (metrics_entry lib parse_addr show_addr) (proxies_from u i xs))
  unfolding metrics_entry
  All-Accounts available running u [] i h = tt
  All-Accounts available running u (x ∷ xs) i h = (
    h 0 i x (omega arith) refl,
    All-Accounts available running u xs (suc i) (λ k j y e g. h (suc k) j y (omega arith) g),
  )

  start_server-Balanced :
      (config : ParsedConfig) (server : Server) (semaphores : List Semaphore)
      (bind : ℕ → IoResult (Unit {0}))
      → from_config lib parse_addr show_addr config ≡ some (server, semaphores)
      → (r : Run lib) × (start_server lib bind server semaphores ≡ some r)
        × Balanced lib (all_listeners parse_addr config.servers) r.tasks
  unfolding start_server
  start_server-Balanced config server semaphores bind made =
      let s = from_config-IsServerOf lib parse_addr show_addr config server semaphores made in
      let (ts, e, b) =
        start_tasks-Balanced lib bind s.upstream semaphores semaphores 0
          (all_listeners parse_addr config.servers) refl s.permits in
      (
        record { token = false; tasks = ts },
        ap
            (λ (o : Option (List (Task lib))).
              o >>= λ tasks. some (record { token = false; tasks = tasks }))
            (ap (start_tasks lib bind semaphores 0) s.proxies ∙ e),
        b,
      )

  -- A server that was built can be started, whatever its binds answer, and then each health
  -- upstream in a proxy's map answers every request for `/metrics` with a page that has, for each
  -- proxy, the number of connections that hold one of its permits at the moment at which the
  -- handler reads its semaphore, after any events of the server and also when these go on between
  -- two reads, and the proxy's limit; and every other path with `OK`.
  pub serve_connection-run :
      (config : ParsedConfig) (server : Server) (semaphores : List Semaphore)
      (bind : ℕ → IoResult (Unit {0})) (p : Proxy) (name : String) (metrics : Metrics)
      (asked : List Asked)
      → from_config lib parse_addr show_addr config ≡ some (server, semaphores)
      → Memᴰ p server.proxies
      → get p.upstream name ≡ some (health metrics)
      → (r : Run lib) × (start_server lib bind server semaphores ≡ some r)
        × (map (λ (a : Response). a.body) (serve_connection metrics (map (request lib r) asked))
            ≡ map (exact_body lib r (metrics_of lib parse_addr show_addr server)) asked)
  serve_connection-run config server semaphores bind p name metrics asked made m there =
      let settings = all_listeners parse_addr config.servers in
      let s = from_config-IsServerOf lib parse_addr show_addr config server semaphores made in
      let (r, e, b) = start_server-Balanced config server semaphores bind made in
      let shared = proxies_from-upstream s.upstream 0 settings p (subst (Memᴰ p) s.proxies m) in
      let same : metrics ≡ metrics_of lib parse_addr show_addr server =
        get-inject (metrics_of lib parse_addr show_addr server) metrics config.upstream name
          (ap (λ u. get u name) (sym (shared ∙ s.injected)) ∙ there) in
      let accounts = λ (q : Asked).
        subst (All (Accounts (request lib r q).available_permits (running_then lib r q)))
          (ap (map (metrics_entry lib parse_addr show_addr)) (sym s.proxies))
          (All-Accounts (request lib r q).available_permits (running_then lib r q) s.upstream
            settings 0
            (λ k j x g e.
              permits_at-Balanced lib settings (run lib r (q.before j)).tasks j x
                (run-Balanced lib settings r (q.before j) b)
                (let at_k : j ≡ k = omega arith in rw at_k e))) in
      (
        r,
        e,
        ap (λ ms. map (λ (a : Response). a.body) (serve_connection ms (map (request lib r) asked)))
              same
            ∙ serve_connection-exact lib r (metrics_of lib parse_addr show_addr server) asked
                accounts,
      )
