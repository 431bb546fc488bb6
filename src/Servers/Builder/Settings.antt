-- ===== src/Servers/Builder/Settings.antt =====
-- servers/builder.rs: the settings of the proxies that a configuration asks for.
use tls_proxy_tunnel.Base.{
  ℕ, suc, ◌+◌, ◌≡◌, refl, ap, Option, none, some, List, [], ◌∷◌, ◌++◌, map, String, arith, length,
}
use tls_proxy_tunnel.Base.Dict.{Dict}
use tls_proxy_tunnel.Net.{SocketAddr}
use tls_proxy_tunnel.Config.Types.{ServerConfig}
use tls_proxy_tunnel.Upstreams.Types.{Upstream}
use tls_proxy_tunnel.Servers.Semaphores.{SemaphoreLib}
use tls_proxy_tunnel.Servers.Types.{Proxy}
use tls_proxy_tunnel.Servers.Builder.{or_text, or_false, set_upstream}

-- The settings of one proxy, without its semaphore and its map.
pub record Setting : Type 0 where
  pub name : String
  pub addr : SocketAddr
  pub config : ServerConfig

-- The proxy of a setting, with the semaphore at place `i`.
abbrev pub proxy_of : Dict Upstream → ℕ → Setting → Proxy
proxy_of upstream i s = record {
  name = s.name;
  listen = s.addr;
  protocol = or_text s.config.protocol "tcp";
  tls = or_false s.config.tls;
  sni = s.config.sni;
  default_action = or_text s.config.default "ban";
  upstream = upstream;
  via = s.config.via;
  maxclients = i;
  maxclients_limit = s.config.maxclients;
}

abbrev pub proxies_from : Dict Upstream → ℕ → List Setting → List Proxy
proxies_from upstream i [] = []
proxies_from upstream i (s ∷ ss) = proxy_of upstream i s ∷ proxies_from upstream (suc i) ss

pub proxies_from-append :
    (u : Dict Upstream) (i : ℕ) (xs ys : List Setting) (j : ℕ)
    → j ≡ i + length xs
    → proxies_from u i (xs ++ ys) ≡ proxies_from u i xs ++ proxies_from u j ys
proxies_from-append u i [] ys j e = let e' : j ≡ i = omega arith in rw e' refl
proxies_from-append u i (x ∷ xs) ys j e =
    ap (λ ps. proxy_of u i x ∷ ps) (proxies_from-append u (suc i) xs ys j (omega arith))

pub map-set_upstream :
    (u v : Dict Upstream) (i : ℕ) (ss : List Setting)
    → map (set_upstream u) (proxies_from v i ss) ≡ proxies_from u i ss
unfolding set_upstream
map-set_upstream u v i [] = refl
map-set_upstream u v i (s ∷ ss) = ap (λ ps. proxy_of u i s ∷ ps) (map-set_upstream u v (suc i) ss)

module _ (parse_addr : String → Option SocketAddr) where
  -- The listeners that a configuration asks for: each address that parses, in order.
  abbrev pub listeners_of : String → ServerConfig → List String → List Setting
  listeners_of name cfg [] = []
  listeners_of name cfg (l ∷ ls) = elim (parse_addr l) [
    | none ↦ listeners_of name cfg ls
    | some addr ↦ record { name = name; addr = addr; config = cfg } ∷ listeners_of name cfg ls
  ]

  abbrev pub all_listeners : Dict ServerConfig → List Setting
  all_listeners [] = []
  all_listeners ((name, cfg) ∷ rest) = listeners_of name cfg cfg.listen ++ all_listeners rest

module _ (lib : SemaphoreLib) where
  open lib use {Semaphore, create, available_permits}

  -- A semaphore for each setting, with as many permits as the setting's limit.
  abbrev pub HasPermits : List Setting → List Semaphore → Type 0
  HasPermits [] [] = Unit
  HasPermits (x ∷ xs) (s ∷ ss) = (available_permits s ≡ x.config.maxclients) × HasPermits xs ss
  HasPermits _ _ = ⊥

  pub HasPermits-length :
      (xs : List Setting) (ss : List Semaphore) → HasPermits xs ss → length ss ≡ length xs
  HasPermits-length [] [] h = refl
  HasPermits-length (x ∷ xs) (s ∷ ss) h = ap suc (HasPermits-length xs ss h.1)
  HasPermits-length [] (s ∷ ss) h = absurd h
  HasPermits-length (x ∷ xs) [] h = absurd h

  pub HasPermits-concat :
      (xs : List Setting) (ss : List Semaphore) (x : Setting) (s : Semaphore)
      → HasPermits xs ss
      → available_permits s ≡ x.config.maxclients
      → HasPermits (xs ++ x ∷ []) (ss ++ s ∷ [])
  HasPermits-concat [] [] x s h e = (e, tt)
  HasPermits-concat (y ∷ xs) (t ∷ ss) x s h e = (h.0, HasPermits-concat xs ss x s h.1 e)
  HasPermits-concat [] (t ∷ ss) x s h e = absurd h
  HasPermits-concat (y ∷ xs) [] x s h e = absurd h

  pub record IsBuilt (settings : List Setting) (built : List Proxy × List Semaphore) : Type 0 where
    pub proxies : built.0 ≡ proxies_from [] 0 settings
    pub permits : HasPermits settings built.1
