-- ===== src/Servers/Builder/Built.antt =====
-- servers/builder.rs: the proxies, their semaphores and the metrics that are built.
use tls_proxy_tunnel.Base.{
  ◌+◌, ◌≡◌, refl, sym, ap, ◌∙◌, subst, Option, some, List, [], ◌∷◌, ◌++◌, map, String, arith,
  length, Option-cases, inl, inr,
}
use mathlib.Core.List.{append_assoc, append-nil}
use tls_proxy_tunnel.Base.Options.{some_of_bind}
use tls_proxy_tunnel.Base.Dict.{Dict, map_values}
use tls_proxy_tunnel.Net.{SocketAddr}
use tls_proxy_tunnel.Config.Types.{ServerConfig, ParsedConfig}
use tls_proxy_tunnel.Upstreams.Types.{Upstream, Metrics}
use tls_proxy_tunnel.Servers.Semaphores.{SemaphoreLib}
use tls_proxy_tunnel.Servers.Types.{Proxy, Server}
use tls_proxy_tunnel.Servers.Builder.{
  raw_proxy, inject, set_upstream, build_listens, build_servers, metrics_entry, from_config,
}
use tls_proxy_tunnel.Servers.Builder.Settings.{
  Setting, proxies_from, proxies_from-append, map-set_upstream, listeners_of, all_listeners,
  HasPermits, HasPermits-length, HasPermits-concat, IsBuilt,
}

module _ (lib : SemaphoreLib) (parse_addr : String → Option SocketAddr)
    (show_addr : SocketAddr → String) where
  open lib use {Semaphore, create, available_permits, available-create}

  build_one :
      (name : String) (cfg : ServerConfig) (addr : SocketAddr) (settings : List Setting)
      (ps : List Proxy) (st : List Semaphore) (s : Semaphore)
      → create cfg.maxclients ≡ some s
      → IsBuilt lib settings (ps, st)
      → IsBuilt lib
          (settings ++ record { name = name; addr = addr; config = cfg } ∷ [])
          (ps ++ raw_proxy name cfg addr (length st) ∷ [], st ++ s ∷ [])
  unfolding raw_proxy
  build_one name cfg addr settings ps st s e b =
      let x : Setting = record { name = name; addr = addr; config = cfg } in
      let same : length st ≡ 0 + length settings =
        omega (arith, HasPermits-length lib settings st b.permits) in
      record {
        proxies = rw b.proxies (sym (proxies_from-append [] 0 settings (x ∷ []) (length st) same));
        permits =
            HasPermits-concat lib settings st x s b.permits (available-create cfg.maxclients e);
      }

  build_listens-IsBuilt :
      (name : String) (cfg : ServerConfig) (ls : List String) (settings : List Setting)
      (ps : List Proxy) (st : List Semaphore) (built' : List Proxy × List Semaphore)
      → build_listens lib parse_addr show_addr name cfg ls (ps, st) ≡ some built'
      → IsBuilt lib settings (ps, st)
      → IsBuilt lib (settings ++ listeners_of parse_addr name cfg ls) built'
  unfolding build_listens
  build_listens-IsBuilt name cfg [] settings ps st built' h b =
      let same : (ps, st) ≡ built' = cc in
      rw (append-nil settings) (subst (IsBuilt lib settings) same b)
  build_listens-IsBuilt name cfg (l ∷ ls) settings ps st built' h b =
      elim (Option-cases (parse_addr l)) [
        | inl e ↦
            rw (e, listeners_of)
              (build_listens-IsBuilt name cfg ls settings ps st built' (rw (e, build_listens) at h)
                b)
        | inr (addr, e) ↦
            let h₁ = (rw (e, build_listens) at h) in
            let (s, made, h₂) = some_of_bind (create cfg.maxclients) _ h₁ in
            let x : Setting = record { name = name; addr = addr; config = cfg } in
            let b' = build_one name cfg addr settings ps st s made b in
            let later = build_listens-IsBuilt name cfg ls (settings ++ x ∷ []) _ _ built' h₂ b' in
            rw (e, listeners_of)
              (subst (λ ss. IsBuilt lib ss built')
                (append_assoc settings (x ∷ []) (listeners_of parse_addr name cfg ls)) later)
      ]

  build_servers-IsBuilt :
      (servers : Dict ServerConfig) (settings : List Setting)
      (built built' : List Proxy × List Semaphore)
      → build_servers lib parse_addr show_addr servers built ≡ some built'
      → IsBuilt lib settings built
      → IsBuilt lib (settings ++ all_listeners parse_addr servers) built'
  unfolding build_servers
  build_servers-IsBuilt [] settings built built' h b =
      let same : built ≡ built' = cc in
      rw (append-nil settings) (subst (IsBuilt lib settings) same b)
  build_servers-IsBuilt ((name, cfg) ∷ rest) settings built built' h b =
      let (mid, e, h') =
        some_of_bind (build_listens lib parse_addr show_addr name cfg cfg.listen built) _ h in
      let here = listeners_of parse_addr name cfg cfg.listen in
      let b' = build_listens-IsBuilt name cfg cfg.listen settings built.0 built.1 mid e b in
      subst (λ ss. IsBuilt lib ss built')
        (append_assoc settings here (all_listeners parse_addr rest))
        (build_servers-IsBuilt rest (settings ++ here) mid built' h' b')

  -- The metrics entries of a server, in the order of its proxies.
  abbrev pub metrics_of : Server → Metrics
  metrics_of server = map (metrics_entry lib parse_addr show_addr) server.proxies

  map-metrics_entry-set_upstream :
      (u : Dict Upstream) (ps : List Proxy)
      → map (metrics_entry lib parse_addr show_addr) (map (set_upstream u) ps)
        ≡ map (metrics_entry lib parse_addr show_addr) ps
  unfolding metrics_entry set_upstream
  map-metrics_entry-set_upstream u [] = refl
  map-metrics_entry-set_upstream u (p ∷ ps) =
      ap (λ ms. metrics_entry lib parse_addr show_addr p ∷ ms) (map-metrics_entry-set_upstream u ps)

  -- The server that a configuration stands for.
  pub record IsServerOf (config : ParsedConfig) (server : Server) (semaphores : List Semaphore)
      : Type 0 where
    pub upstream : Dict Upstream
    -- One proxy for each listen address that parses, with semaphores 0, 1, … and one shared map.
    pub proxies : server.proxies ≡ proxies_from upstream 0 (all_listeners parse_addr config.servers)
    -- A semaphore for each proxy, with all of the proxy's permits.
    pub permits : HasPermits lib (all_listeners parse_addr config.servers) semaphores
    -- The shared map is the configuration's, with the proxies' metrics in each health upstream.
    pub injected : upstream ≡ map_values (inject (metrics_of server)) config.upstream

  -- When the builder makes a server, it has one proxy for each listen address that parses, in
  -- order, each with its own semaphore of as many permits as its limit, and all with one upstream
  -- map: the configuration's, with the metrics of these proxies in each health upstream.
  pub from_config-IsServerOf :
      (config : ParsedConfig) (server : Server) (semaphores : List Semaphore)
      → from_config lib parse_addr show_addr config ≡ some (server, semaphores)
      → IsServerOf config server semaphores
  unfolding from_config
  from_config-IsServerOf config server semaphores h =
      let (built, e, h') =
        some_of_bind (build_servers lib parse_addr show_addr config.servers ([], [])) _ h in
      let b =
        build_servers-IsBuilt config.servers [] ([], []) built e
          (record { proxies = refl; permits = tt }) in
      let metrics = map (metrics_entry lib parse_addr show_addr) built.0 in
      let upstream = map_values (inject metrics) config.upstream in
      let result : Server × List Semaphore =
        (record { proxies = map (set_upstream upstream) built.0 }, built.1) in
      let same : result ≡ (server, semaphores) = cc h' in
      subst (λ (r : Server × List Semaphore). IsServerOf config r.0 r.1) same
        (record {
          upstream = upstream;
          proxies =
              ap (map (set_upstream upstream)) b.proxies
              ∙ map-set_upstream upstream [] 0 (all_listeners parse_addr config.servers);
          permits = b.permits;
          injected =
              ap (λ (ms : Metrics). map_values (inject ms) config.upstream)
                (sym (map-metrics_entry-set_upstream upstream built.0));
        })
