-- ===== src/Servers/Builder/Routable.antt =====
-- servers/builder.rs and the routing in servers/protocol/tcp.rs, from a loaded configuration on.
use mathlib.Core.List.{Memᴰ}
use mathlib.Core.List.Memᴰ
use tls_proxy_tunnel.Base.{
  ℕ, suc, ◌≡◌, refl, subst, ◌∙◌, All-weaken, ◌⊎◌, inl, inr, Bool, true, false, Option, none, some,
  List, [], ◌∷◌, String, All, All-append, All-append_left, All-append_right, Option-cases,
}
use tls_proxy_tunnel.Base.Dict.{
  Dict, get, values, contains_key, contains_key-map_values, some_of_contains_key,
}
use tls_proxy_tunnel.Net.{SocketAddr}
use tls_proxy_tunnel.Config.Types.{SniTarget, ServerConfig, ParsedConfig}
use tls_proxy_tunnel.Config.Verify.{sni_targets}
use tls_proxy_tunnel.Config.Verify.Accepts.{IsWellFormed}
use tls_proxy_tunnel.Config.Verify.Sets.{
  IsDefined, required, all_required, target_names, option_list,
}
use tls_proxy_tunnel.Upstreams.Types.{Upstream}
use tls_proxy_tunnel.Servers.Semaphores.{SemaphoreLib}
use tls_proxy_tunnel.Servers.Types.{Proxy, Server}
use tls_proxy_tunnel.Servers.Routing.{route, found, pick_upstream}
use tls_proxy_tunnel.Servers.Routing.Chosen.{sni_names, route-All, pick_upstream_found}
use tls_proxy_tunnel.Servers.Builder.{or_text, or_false, from_config, inject}
use tls_proxy_tunnel.Servers.Builder.Built.{IsServerOf, from_config-IsServerOf, metrics_of}
use tls_proxy_tunnel.Servers.Builder.Settings.{
  Setting, listeners_of, all_listeners, proxy_of, proxies_from,
}

-- The default action is defined, and so are the SNI targets of a TLS server.
record IsRoutable (upstream : Dict Upstream) (cfg : ServerConfig) : Type 0 where
  default_defined : IsDefined upstream (or_text cfg.default "ban")
  targets_defined : (or_false cfg.tls ≡ false) ⊎ All (IsDefined upstream) (sni_names cfg.sni)

default-IsDefined :
    (u : Dict Upstream) (d : Option String)
    → IsDefined u "ban"
    → All (IsDefined u) (option_list d)
    → IsDefined u (or_text d "ban")
default-IsDefined u none b h = b
default-IsDefined u (some name) b h = h.0

targets-IsDefined :
    (u : Dict Upstream) (tls : Option Bool) (sni : Option (Dict SniTarget))
    → All (IsDefined u) (target_names (sni_targets tls sni))
    → (or_false tls ≡ false) ⊎ All (IsDefined u) (sni_names sni)
unfolding sni_targets
targets-IsDefined u none sni h = inl refl
targets-IsDefined u (some false) sni h = inl refl
targets-IsDefined u (some true) none h = inr tt
targets-IsDefined u (some true) (some m) h = inr h

required-IsRoutable :
    (u : Dict Upstream) (cfg : ServerConfig)
    → IsDefined u "ban"
    → All (IsDefined u) (required cfg)
    → IsRoutable u cfg
required-IsRoutable u cfg b h =
    let names = target_names (sni_targets cfg.tls cfg.sni) in
    let default = option_list cfg.default in
    record {
      default_defined =
          default-IsDefined u cfg.default b (All-append_right (IsDefined u) names default h);
      targets_defined =
          targets-IsDefined u cfg.tls cfg.sni (All-append_left (IsDefined u) names default h);
    }

module _ (parse_addr : String → Option SocketAddr) (u : Dict Upstream) where
  abbrev IsRoutableSetting : Setting → Type 0
  IsRoutableSetting s = IsRoutable u s.config

  listeners_of-IsRoutable :
      (name : String) (cfg : ServerConfig) (ls : List String)
      → IsRoutable u cfg
      → All IsRoutableSetting (listeners_of parse_addr name cfg ls)
  listeners_of-IsRoutable name cfg [] r = tt
  listeners_of-IsRoutable name cfg (l ∷ ls) r = elim (Option-cases (parse_addr l)) [
    | inl e ↦ rw (e, listeners_of) (listeners_of-IsRoutable name cfg ls r)
    | inr (addr, e) ↦ rw (e, listeners_of) (r, listeners_of-IsRoutable name cfg ls r)
  ]

  all_listeners-IsRoutable :
      (servers : Dict ServerConfig)
      → IsDefined u "ban"
      → All (IsDefined u) (all_required (values servers))
      → All IsRoutableSetting (all_listeners parse_addr servers)
  all_listeners-IsRoutable [] b h = tt
  all_listeners-IsRoutable ((name, cfg) ∷ rest) b h =
      let here = All-append_left (IsDefined u) (required cfg) (all_required (values rest)) h in
      let later = All-append_right (IsDefined u) (required cfg) (all_required (values rest)) h in
      All-append IsRoutableSetting (listeners_of parse_addr name cfg cfg.listen)
        (all_listeners parse_addr rest)
        (listeners_of-IsRoutable name cfg cfg.listen (required-IsRoutable u cfg b here))
        (all_listeners-IsRoutable rest b later)

-- A proxy all of whose choices are in its map.
record IsRoutableProxy (p : Proxy) : Type 0 where
  default_defined : IsDefined p.upstream p.default_action
  targets_defined : (p.tls ≡ false) ⊎ All (IsDefined p.upstream) (sni_names p.sni)

proxy_of-IsRoutable :
    (u v : Dict Upstream) (i : ℕ) (s : Setting)
    → ((k : String) → contains_key v k ≡ contains_key u k)
    → IsRoutable u s.config
    → IsRoutableProxy (proxy_of v i s)
proxy_of-IsRoutable u v i s same r =
    let into : (k : String) → IsDefined u k → IsDefined v k = λ k d. same k ∙ d in
    record {
      default_defined = into (or_text s.config.default "ban") r.default_defined;
      targets_defined = elim r.targets_defined [
        | inl plain ↦ inl plain
        | inr names ↦
            inr (All-weaken (IsDefined u) (IsDefined v) into (sni_names s.config.sni) names)
      ];
    }

injected_keys :
    (lib : SemaphoreLib) (parse_addr : String → Option SocketAddr) (show_addr : SocketAddr → String)
    (config : ParsedConfig) (server : Server) (semaphores : List lib.Semaphore)
    (made : IsServerOf lib parse_addr show_addr config server semaphores) (k : String)
    → contains_key made.upstream k ≡ contains_key config.upstream k
injected_keys lib parse_addr show_addr config server semaphores made k = rw made.injected (
    contains_key-map_values (inject (metrics_of lib parse_addr show_addr server)) config.upstream k)

names_or_none :
    (p : Proxy) (snis : List String)
    → IsRoutableProxy p
    → (p.tls ≡ true) ⊎ (snis ≡ [])
    → All (IsDefined p.upstream) (sni_names p.sni) ⊎ (snis ≡ [])
names_or_none p snis r (inr e) = inr e
names_or_none p snis r (inl e) = elim r.targets_defined [
  | inl plain ↦ absurd (cc)
  | inr names ↦ inl names
]

proxies_from-IsRoutable :
    (u v : Dict Upstream) (i : ℕ) (ss : List Setting) (p : Proxy)
    → ((k : String) → contains_key v k ≡ contains_key u k)
    → All (λ s. IsRoutable u s.config) ss
    → Memᴰ p (proxies_from v i ss)
    → IsRoutableProxy p
proxies_from-IsRoutable u v i [] p same h m = absurd (Memᴰ.not-nil m)
proxies_from-IsRoutable u v i (s ∷ ss) p same h m = elim (Memᴰ.cases_cons m) [
  | inl e ↦ rw e (proxy_of-IsRoutable u v i s same h.0)
  | inr later ↦ proxies_from-IsRoutable u v (suc i) ss p same h.1 later
]

-- On a proxy of a server that was built from a well-formed configuration with the `ban` upstream,
-- the name that routing chooses is in the upstream map for any names in the ClientHello, so that a
-- connection neither falls back to the default upstream nor fails for want of it.
pub pick_upstream-route_found :
    (lib : SemaphoreLib) (parse_addr : String → Option SocketAddr) (show_addr : SocketAddr → String)
    (config : ParsedConfig) (server : Server) (semaphores : List lib.Semaphore) (p : Proxy)
    (snis : List String)
    → IsWellFormed config
    → IsDefined config.upstream "ban"
    → from_config lib parse_addr show_addr config ≡ some (server, semaphores)
    → Memᴰ p server.proxies
    → (p.tls ≡ true) ⊎ (snis ≡ [])
    → (u : Upstream) × (get p.upstream (route p snis).0 ≡ some u)
      × (pick_upstream p (route p snis).0 ≡ found u)
pick_upstream-route_found lib parse_addr show_addr config server semaphores p snis w b h m tls =
    let made = from_config-IsServerOf lib parse_addr show_addr config server semaphores h in
    let same =
      λ (k : String). injected_keys lib parse_addr show_addr config server semaphores made k in
    let settings = all_listeners-IsRoutable parse_addr config.upstream config.servers b w.defined in
    let r =
      proxies_from-IsRoutable config.upstream made.upstream 0
        (all_listeners parse_addr config.servers) p same settings (subst (Memᴰ p) made.proxies m) in
    let chosen =
      route-All (IsDefined p.upstream) p snis r.default_defined (names_or_none p snis r tls) in
    let (u, e) = some_of_contains_key p.upstream (route p snis).0 chosen in
    (u, e, pick_upstream_found p (route p snis).0 u e)
