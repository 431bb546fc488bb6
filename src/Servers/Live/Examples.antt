-- ===== src/Servers/Live/Examples.antt =====
-- Tests of a running server with two listeners, and its theorem for a request between connections.
use mathlib.Core.List.{Memᴰ}
use native.Mathlib.Decide.{dec_lt}
use tls_proxy_tunnel.Utf8.{from_utf8}
use tls_proxy_tunnel.Base.{
  true, ℕ, ◌≡◌, refl, false, none, some, All, replicate, arith, List, [], ◌∷◌, map,
}
use tls_proxy_tunnel.Base.Dict.{get}
use tls_proxy_tunnel.Net.{io_ok, IoResult}
use tls_proxy_tunnel.Upstreams.Health.{Response, serve_connection, health_handler}
use tls_proxy_tunnel.Servers.Semaphores.{counter}
use tls_proxy_tunnel.Servers.Builder.Sample.{
  config, parse_addr, show_addr, entry, proxy_at, server, builds,
}
use tls_proxy_tunnel.Servers.Builder.Built.{metrics_of}
use tls_proxy_tunnel.Servers.Listener.{accepted, ended}
use tls_proxy_tunnel.Servers.Shutdown.{Run, RunEvent, at, start_task}
use tls_proxy_tunnel.Config.Types.{default_via}
use tls_proxy_tunnel.Upstreams.Http.{got}
use tls_proxy_tunnel.Upstreams.Relay.{sent, received, chunk}
use tls_proxy_tunnel.Upstreams.Process.Ends.{Answers}
use tls_proxy_tunnel.Servers.Routing.{
  route, matched_target, select_target, find_target, connect_target,
}
use tls_proxy_tunnel.Servers.Accept.{read_snis}
use tls_proxy_tunnel.Servers.Accept.Sample.{
  parser, no_alphanumeric, no_env, show_io, world, arrives,
}
use tls_proxy_tunnel.Servers.Shutdown.{run, signal, returned}
use tls_proxy_tunnel.Servers.Shutdown.Drain.{drain}
use tls_proxy_tunnel.Servers.Live.Drained.{
  Connections, AllAnswered, CanHappen, run_drains-start_server,
}
use tls_proxy_tunnel.Servers.Live.{start_tasks, start_server}
use tls_proxy_tunnel.Upstreams.Health.Scraped.{IsPlain}
use tls_proxy_tunnel.Servers.Builder.{metrics_entry}
use tls_proxy_tunnel.Servers.Live.Scraped.{scrape, exact_samples, scrape-run}
use tls_proxy_tunnel.Servers.Live.Exact.{Asked, request, exact_body, serve_connection-run}

abbrev bound : ℕ → IoResult (Unit {0})
bound i = io_ok tt

-- Connections 1 and 2 come to the listeners, then 3 to the second one.
abbrev busy : List RunEvent
busy = at 0 (accepted 1) ∷ at 1 (accepted 2) ∷ at 1 (accepted 3) ∷ []

-- Connection 3 comes after the handler has read the first semaphore.
abbrev asked : List Asked
asked =
    record { path = "/metrics"; before = λ i. busy }
    ∷ record { path = "/"; before = λ i. [] }
    ∷ record { path = "/metrics"; before = λ i. at 0 (ended 1) ∷ busy }
    ∷ []

serve_connection-run_example :
    (r : Run counter) × (start_server counter bound server (7 ∷ 7 ∷ []) ≡ some r)
    × (map
          (λ (a : Response). a.body)
          (serve_connection (entry 0 ∷ entry 1 ∷ []) (map (request counter r) asked))
        ≡ map (exact_body counter r (metrics_of counter parse_addr show_addr server)) asked)
unfolding get
serve_connection-run_example =
    serve_connection-run counter parse_addr show_addr config server (7 ∷ 7 ∷ []) bound
      (proxy_at 443 0) "health" (entry 0 ∷ entry 1 ∷ []) asked builds (Memᴰ.head refl) refl

-- Connection 3 comes between the two pages.
abbrev scraped : List Asked
scraped =
    record { path = "/metrics"; before = λ i. at 0 (accepted 1) ∷ at 1 (accepted 2) ∷ [] }
    ∷ record { path = "/metrics"; before = λ i. busy }
    ∷ []

entries-IsPlain : All IsPlain (entry 0 ∷ entry 1 ∷ [])
entries-IsPlain = ground arith

scrape-run_example :
    (r : Run counter) × (start_server counter bound server (7 ∷ 7 ∷ []) ≡ some r)
    × (scrape (serve_connection (entry 0 ∷ entry 1 ∷ []) (map (request counter r) scraped))
        ≡ exact_samples counter r (metrics_of counter parse_addr show_addr server) scraped)
unfolding get metrics_entry
scrape-run_example =
    scrape-run counter parse_addr show_addr config server (7 ∷ 7 ∷ []) bound (proxy_at 443 0)
      "health" (entry 0 ∷ entry 1 ∷ []) scraped builds (Memᴰ.head refl) refl entries-IsPlain
      (refl, (refl, tt))

other_paths :
    map
      (λ (a : Response). a.body)
      (serve_connection (entry 0 ∷ entry 1 ∷ []) (
        map
          (request counter (record { token = false; tasks = [] }))
          (record { path = "/healthz"; before = λ i. busy } ∷ [])))
    ≡ "OK" ∷ []
unfolding serve_connection health_handler
other_paths = refl

starts :
    start_server counter bound server (7 ∷ 7 ∷ [])
    ≡ some (record {
      token = false;
      tasks =
          start_task counter (proxy_at 443 0) (bound 0) 7
          ∷ start_task counter (proxy_at 444 1) (bound 1) 7
          ∷ [];
    })
unfolding start_server start_tasks
starts = refl

-- Every connection is echoed, and its sockets answer.
abbrev answered : Connections ℕ
answered i id = record {
  inbound = arrives;
  world = record world {
    reads = replicate 16384 (got (0 ∷ []));
    events = sent (chunk []) ∷ received (chunk []) ∷ [];
  };
}

echo-Answers : Answers no_alphanumeric no_env show_io default_via none (answered 0 0).world
echo-Answers = record { copied = λ e. cc; writes = omega arith; reads = omega arith; events = refl }

answered-AllAnswered : AllAnswered no_alphanumeric no_env show_io parser server.proxies answered
unfolding read_snis route matched_target select_target find_target get connect_target from_utf8
    dec_lt
answered-AllAnswered = ((λ id. echo-Answers), ((λ id. echo-Answers), tt))

abbrev started : Run counter
started = record {
  token = false;
  tasks =
      start_task counter (proxy_at 443 0) (bound 0) 7
      ∷ start_task counter (proxy_at 444 1) (bound 1) 7
      ∷ [];
}

run_drains-start_server_example :
    let r = run counter started busy in
    All
      (CanHappen no_alphanumeric no_env show_io parser server.proxies answered)
      (signal ∷ drain counter r.tasks)
    × (returned counter (run counter r (signal ∷ drain counter r.tasks)) ≡ true)
run_drains-start_server_example =
    run_drains-start_server no_alphanumeric no_env show_io parser counter bound server (7 ∷ 7 ∷ [])
      started busy answered starts answered-AllAnswered
