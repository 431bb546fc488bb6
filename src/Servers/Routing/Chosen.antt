-- ===== src/Servers/Routing/Chosen.antt =====
-- servers/protocol/tcp.rs, the routing in `accept`: names that the default and the targets share.
use tls_proxy_tunnel.Base.{
  ◌≡◌, ◌∙◌, ◌⊎◌, inl, inr, Option, none, some, List, [], ◌∷◌, String, arith, str_eq, All,
  Option-cases, Bool-cases,
}
use tls_proxy_tunnel.Base.Dict.{Dict, get, values}
use tls_proxy_tunnel.Config.Types.{SniTarget, upstream_name}
use tls_proxy_tunnel.Config.Verify.Sets.{target_names}
use tls_proxy_tunnel.Upstreams.Types.{Upstream}
use tls_proxy_tunnel.Servers.Types.{Proxy}
use tls_proxy_tunnel.Servers.Routing.{
  find_target, matched_target, select_target, route, found, pick_upstream,
}

abbrev pub sni_names : Option (Dict SniTarget) → List String
sni_names none = []
sni_names (some m) = target_names (values m)

get-All :
    (P : String → Type 0) (m : Dict SniTarget) (k : String) (t : SniTarget)
    → All P (target_names (values m))
    → get m k ≡ some t
    → P (upstream_name t)
unfolding get
get-All P [] k t h e = absurd (cc)
get-All P ((j, v) ∷ m) k t h e = elim (Bool-cases (str_eq j k)) [
  | inl hit ↦ let same : v ≡ t = ground arith in rw (← same) h.0
  | inr miss ↦ get-All P m k t h.1 (ground arith)
]

find_target-All :
    (P : String → Type 0) (m : Dict SniTarget) (snis : List String) (t : SniTarget)
    → All P (target_names (values m))
    → find_target m snis ≡ some t
    → P (upstream_name t)
unfolding find_target
find_target-All P m [] t h e = absurd (cc)
find_target-All P m (s ∷ ss) t h e = elim (Option-cases (get m s)) [
  | inl none_here ↦ find_target-All P m ss t h (rw (none_here, find_target) at e)
  | inr (t', here) ↦ get-All P m s t h (here ∙ (rw (here, find_target) at e))
]

matched_target-All :
    (P : String → Type 0) (sni : Option (Dict SniTarget)) (snis : List String) (t : SniTarget)
    → All P (sni_names sni)
    → matched_target sni snis ≡ some t
    → P (upstream_name t)
unfolding matched_target
matched_target-All P sni [] t h e = absurd (cc)
matched_target-All P none (s ∷ ss) t h e = absurd (cc)
matched_target-All P (some m) (s ∷ ss) t h e = find_target-All P m (s ∷ ss) t h e

-- What holds of the default and of every target holds of the chosen name.
pub route-All :
    (P : String → Type 0) (p : Proxy) (snis : List String)
    → P p.default_action
    → All P (sni_names p.sni) ⊎ (snis ≡ [])
    → P (route p snis).0
unfolding route
route-All P p snis d h = elim (Option-cases (matched_target p.sni snis)) [
  | inl e ↦ rw (e, select_target) d
  | inr (t, e) ↦
      rw (e, select_target)
        (elim h [
          | inl names ↦ matched_target-All P p.sni snis t names e
          | inr empty ↦ absurd (matched-nil p.sni snis t empty e)
        ])
]
  where
    matched-nil :
        (sni : Option (Dict SniTarget)) (snis : List String) (t : SniTarget)
        → snis ≡ []
        → matched_target sni snis ≡ some t
        → ⊥
    matched-nil sni [] t empty e = cc
    matched-nil sni (s ∷ ss) t empty e = cc

pub pick_upstream_found :
    (p : Proxy) (name : String) (u : Upstream)
    → get p.upstream name ≡ some u
    → pick_upstream p name ≡ found u
unfolding pick_upstream
pick_upstream_found p name u e = ground arith
