-- ===== src/Servers/Builder/Total.antt =====
-- servers/builder.rs: the configurations for which the builder makes a server.
use tls_proxy_tunnel.Base.{
  ℕ, ◌≤◌, ◌≡◌, ◌↔◌, refl, Option, some, List, [], ◌∷◌, ◌++◌, length, String, arith, leb, All,
  All-append, All-append_left, All-append_right, Option-cases, inl, inr, Bool-cases,
}
use tls_proxy_tunnel.Base.Options.{some_of_bind, bind_of_some}
use tls_proxy_tunnel.Base.Dict.{Dict}
use tls_proxy_tunnel.Net.{SocketAddr}
use tls_proxy_tunnel.Config.Types.{ServerConfig, ParsedConfig}
use tls_proxy_tunnel.Servers.Semaphores.{SemaphoreLib}
use tls_proxy_tunnel.Servers.Types.{Proxy, Server}
use tls_proxy_tunnel.Servers.Builder.{raw_proxy, build_listens, build_servers, from_config}
use tls_proxy_tunnel.Servers.Builder.Settings.{Setting, listeners_of, all_listeners}

module _ (lib : SemaphoreLib) where
  open lib use {Semaphore, max_permits, create, create_fits, create_panics}

  -- The limit of a listener is one that a semaphore can have.
  abbrev pub Fits : Setting → Type 0
  Fits x = x.config.maxclients ≤ max_permits

  create-Fits : (n : ℕ) {s : Semaphore} → create n ≡ some s → n ≤ max_permits
  create-Fits n h = elim (Bool-cases (leb n max_permits)) [
    | inl fits ↦ ground arith
    | inr large ↦ let panics = create_panics n (ground arith) in ground arith
  ]

module _ (lib : SemaphoreLib) (parse_addr : String → Option SocketAddr)
    (show_addr : SocketAddr → String) where
  open lib use {Semaphore, create, create_fits}

  abbrev Built : Type 0
  Built = List Proxy × List Semaphore

  build_listens-Fits :
      (name : String) (cfg : ServerConfig) (ls : List String) (built built' : Built)
      → build_listens lib parse_addr show_addr name cfg ls built ≡ some built'
      → All (Fits lib) (listeners_of parse_addr name cfg ls)
  unfolding build_listens
  build_listens-Fits name cfg [] built built' h = tt
  build_listens-Fits name cfg (l ∷ ls) (ps, st) built' h = elim (Option-cases (parse_addr l)) [
    | inl e ↦
        rw (e, listeners_of)
          (build_listens-Fits name cfg ls (ps, st) built' (rw (e, build_listens) at h))
    | inr (addr, e) ↦
        let (s, made, h') = some_of_bind (create cfg.maxclients) _ (rw (e, build_listens) at h) in
        rw (e, listeners_of)
          (create-Fits lib cfg.maxclients made, build_listens-Fits name cfg ls _ built' h')
  ]

  build_listens-some :
      (name : String) (cfg : ServerConfig) (ls : List String) (built : Built)
      → All (Fits lib) (listeners_of parse_addr name cfg ls)
      → (built' : Built) × (build_listens lib parse_addr show_addr name cfg ls built ≡ some built')
  unfolding build_listens
  build_listens-some name cfg [] built f = (built, refl)
  build_listens-some name cfg (l ∷ ls) (ps, st) f = elim (Option-cases (parse_addr l)) [
    | inl e ↦
        let (built', h) = build_listens-some name cfg ls (ps, st) (rw (e, listeners_of) at f) in
        (built', rw (e, build_listens) h)
    | inr (addr, e) ↦
        let (fits, later) = (rw (e, listeners_of) at f) in
        let (s, made) = create_fits cfg.maxclients fits in
        let (built', h) =
          build_listens-some name cfg ls
            (ps ++ raw_proxy name cfg addr (length st) ∷ [], st ++ s ∷ []) later in
        (built', rw (e, build_listens, made) h)
  ]

  build_servers-Fits :
      (servers : Dict ServerConfig) (built built' : Built)
      → build_servers lib parse_addr show_addr servers built ≡ some built'
      → All (Fits lib) (all_listeners parse_addr servers)
  unfolding build_servers
  build_servers-Fits [] built built' h = tt
  build_servers-Fits ((name, cfg) ∷ rest) built built' h =
      let (mid, e, h') =
        some_of_bind (build_listens lib parse_addr show_addr name cfg cfg.listen built) _ h in
      All-append (Fits lib) (listeners_of parse_addr name cfg cfg.listen)
        (all_listeners parse_addr rest) (build_listens-Fits name cfg cfg.listen built mid e)
        (build_servers-Fits rest mid built' h')

  build_servers-some :
      (servers : Dict ServerConfig) (built : Built)
      → All (Fits lib) (all_listeners parse_addr servers)
      → (built' : Built) × (build_servers lib parse_addr show_addr servers built ≡ some built')
  unfolding build_servers
  build_servers-some [] built f = (built, refl)
  build_servers-some ((name, cfg) ∷ rest) built f =
      let here = listeners_of parse_addr name cfg cfg.listen in
      let later = all_listeners parse_addr rest in
      let (mid, e) =
        build_listens-some name cfg cfg.listen built (All-append_left (Fits lib) here later f) in
      let (built', e') = build_servers-some rest mid (All-append_right (Fits lib) here later f) in
      (built', rw (e) e')

  -- The builder makes a server, and does not panic, exactly when the `maxclients` of each listener,
  -- that is of each listen address that parses, is at most the number of permits that a semaphore
  -- can have.
  pub from_config_iff :
      (config : ParsedConfig)
      → ((r : Server × List Semaphore) × (from_config lib parse_addr show_addr config ≡ some r))
        ↔ All (Fits lib) (all_listeners parse_addr config.servers)
  unfolding from_config
  from_config_iff config = (
    λ h.
        let (built, e, _) =
          some_of_bind (build_servers lib parse_addr show_addr config.servers ([], [])) _ h.1 in
        build_servers-Fits config.servers ([], []) built e,
    λ f.
        let (built, e) = build_servers-some config.servers ([], []) f in
        bind_of_some (build_servers lib parse_addr show_addr config.servers ([], [])) _ e (_, refl),
  )
