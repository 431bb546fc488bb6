-- ===== src/Servers/Routing/Examples.antt =====
-- Tests of routing, and its theorem for a ClientHello with three names.
use tls_proxy_tunnel.Base.{
  ◌≡◌, refl, ◌⊎◌, none, some, true, List, [], ◌∷◌, String, All, show, show_fuel, digit,
}
use tls_proxy_tunnel.Base.Dict.{get}
use tls_proxy_tunnel.Net.{v4}
use tls_proxy_tunnel.Config.Types.{
  ViaUpstream, default_via, SniTarget, simple, extended, upstream_name, via_override,
}
use tls_proxy_tunnel.Servers.Types.{Proxy}
use tls_proxy_tunnel.Servers.Routing.{
  find_target, matched_target, select_target, route, first_target, connect_target,
}
use tls_proxy_tunnel.Servers.Routing.First.{IsUnknown, IsFirst, sni_map, route-cases}

abbrev via_sni : ViaUpstream
via_sni = record default_via { use_sni_as_target = true; target_port = 8443 }

abbrev front : Proxy
front = record {
  name = "front";
  listen = v4 0 443;
  protocol = "tcp";
  tls = true;
  sni = some (("b.org", extended "squid" (some via_sni)) ∷ ("c.org", simple "web") ∷ []);
  default_action = "ban";
  upstream = [];
  via = default_via;
  maxclients = 0;
  maxclients_limit = 100;
}

abbrev names : List String
names = "a.org" ∷ "c.org" ∷ "b.org" ∷ []

second_name_decides : route front names ≡ ("web", none)
unfolding route matched_target select_target find_target get
second_name_decides = refl

-- The CONNECT target is the first name also when another one has decided the route.
first_name_is_target : connect_target via_sni names ≡ some "a.org:8443"
unfolding connect_target first_target show show_fuel digit
first_name_is_target = refl

no_settings_no_target : connect_target default_via names ≡ none
unfolding connect_target
no_settings_no_target = refl

chooses_by_names :
    ((route front names ≡ ("ban", none)) × All (IsUnknown (sni_map front)) names)
    ⊎ ((t : SniTarget) × (route front names ≡ (upstream_name t, via_override t))
        × IsFirst (sni_map front) names t)
chooses_by_names = route-cases front names
