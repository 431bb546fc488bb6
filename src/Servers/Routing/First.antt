-- ===== src/Servers/Routing/First.antt =====
-- servers/protocol/tcp.rs, the routing in `accept`: the first name with an entry in the SNI map.
use tls_proxy_tunnel.Base.{
  ◌≡◌, refl, ap, ◌⊎◌, inl, inr, Option, none, some, List, [], ◌∷◌, ◌++◌, String, All, Option-cases,
}
use tls_proxy_tunnel.Base.Dict.{Dict, get}
use tls_proxy_tunnel.Config.Types.{SniTarget, upstream_name, via_override}
use tls_proxy_tunnel.Servers.Types.{Proxy}
use tls_proxy_tunnel.Servers.Routing.{find_target, matched_target, select_target, route}

abbrev map_or_empty : Option (Dict SniTarget) → Dict SniTarget
map_or_empty none = []
map_or_empty (some m) = m

-- A name without an entry in the map.
abbrev pub IsUnknown : Dict SniTarget → String → Type 0
IsUnknown m name = get m name ≡ none

-- The first name with an entry, which every name in front of it lacks.
pub record IsFirst (m : Dict SniTarget) (snis : List String) (t : SniTarget) : Type 0 where
  pub before : List String
  pub name : String
  pub after : List String
  pub split : snis ≡ before ++ name ∷ after
  pub unknown : All (IsUnknown m) before
  pub entry : get m name ≡ some t

find_target-cases :
    (m : Dict SniTarget) (snis : List String)
    → ((find_target m snis ≡ none) × All (IsUnknown m) snis)
      ⊎ ((t : SniTarget) × (find_target m snis ≡ some t) × IsFirst m snis t)
unfolding find_target
find_target-cases m [] = inl (refl, tt)
find_target-cases m (s ∷ ss) = elim (Option-cases (get m s)) [
  | inr (t, e) ↦ inr (
    t,
    (rw (e, find_target) refl),
    record { before = []; name = s; after = ss; split = refl; unknown = tt; entry = e },
  )
  | inl e ↦ elim (find_target-cases m ss) [
    | inl (none_found, rest) ↦ inl ((rw (e, find_target) none_found), (e, rest))
    | inr (t, found_later, f) ↦ inr (
      t,
      (rw (e, find_target) found_later),
      record {
        before = s ∷ f.before;
        name = f.name;
        after = f.after;
        split = ap (λ xs. s ∷ xs) f.split;
        unknown = (e, f.unknown);
        entry = f.entry;
      },
    )
  ]
]

-- The names of a server without a map have no entry.
abbrev pub sni_map : Proxy → Dict SniTarget
sni_map p = map_or_empty p.sni

All-IsUnknown : (snis : List String) → All (IsUnknown []) snis
unfolding get
All-IsUnknown [] = tt
All-IsUnknown (s ∷ ss) = (refl, All-IsUnknown ss)

matched_target-cases :
    (sni : Option (Dict SniTarget)) (snis : List String)
    → ((matched_target sni snis ≡ none) × All (IsUnknown (map_or_empty sni)) snis)
      ⊎ ((t : SniTarget) × (matched_target sni snis ≡ some t) × IsFirst (map_or_empty sni) snis t)
unfolding matched_target
matched_target-cases sni [] = inl (refl, tt)
matched_target-cases none (s ∷ ss) = inl (refl, All-IsUnknown (s ∷ ss))
matched_target-cases (some m) (s ∷ ss) = find_target-cases m (s ∷ ss)

-- The route of a connection is the target of the first name in the ClientHello that has an entry in
-- the server's SNI map, with the entry's override; if no name has one, it is the default action
-- without an override.
pub route-cases :
    (p : Proxy) (snis : List String)
    → ((route p snis ≡ (p.default_action, none)) × All (IsUnknown (sni_map p)) snis)
      ⊎ ((t : SniTarget) × (route p snis ≡ (upstream_name t, via_override t))
          × IsFirst (sni_map p) snis t)
unfolding route
route-cases p snis = elim (matched_target-cases p.sni snis) [
  | inl (e, unknown) ↦ inl (rw (e, select_target) refl, unknown)
  | inr (t, e, first) ↦ inr (t, rw (e, select_target) refl, first)
]
