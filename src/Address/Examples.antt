-- ===== src/Address/Examples.antt =====
-- Tests of the DNS cache, and its theorems at concrete inputs.
use tls_proxy_tunnel.Base.{◌≡◌, refl, arith, List, [], ◌∷◌, All, false, some, none}
use tls_proxy_tunnel.Net.{SocketAddr, v4, v6, other, io_ok, io_err, seconds, minutes}
use tls_proxy_tunnel.Address.{
  ipv4, ipv6, UpstreamAddress, new, store, resolve, select_family, is_resolved, mode_of, is_valid,
}
use tls_proxy_tunnel.Address.Cache.{resolve_after_success, resolve_after_failure}
use tls_proxy_tunnel.Address.Expiry.{empty_cache, results, expected, resolve_refines}
use tls_proxy_tunnel.Address.Recent.{IsServed, resolve-after-IsServed}
use tls_proxy_tunnel.Address.History.{
  Call, Origin, after, resolve-after-Origin, resolve-after-IsOfMode, IsOfMode,
}

abbrev both : List SocketAddr
both = v6 1 53 ∷ v4 2130706433 53 ∷ []

abbrev blank : UpstreamAddress
blank = record {
  address = "dns.test:53";
  resolved_addresses = [];
  resolved_time = none;
  ttl = none;
}

abbrev warm : UpstreamAddress
warm = record blank { resolved_addresses = both; resolved_time = some 0; ttl = some (minutes 1) }

mode_of_tcp6 : mode_of "tcp6" ≡ ipv6
unfolding mode_of
mode_of_tcp6 = refl

cold_is_invalid : is_valid blank 5 ≡ false
unfolding is_valid
cold_is_invalid = refl

answers_from_cache :
    let b = (store ipv4 0 blank (io_ok both)).0 in
    resolve b ipv4 (seconds 59) (seconds 59) (io_ok []) ≡ (b, io_ok (v4 2130706433 53 ∷ []))
unfolding select_family
answers_from_cache =
    resolve_after_success blank ipv4 0 (seconds 59) (seconds 59) both (io_ok []) (omega arith)
      (λ e. cc)

keeps_old_addresses :
    let b = (store ipv6 5 warm (io_err (other "no route"))).0 in
    resolve b ipv6 6 7 (io_ok []) ≡ (b, io_ok both)
unfolding is_resolved
keeps_old_addresses =
    resolve_after_failure warm ipv6 5 6 7 (other "no route") (io_ok []) (omega arith)

abbrev first_call : Call
first_call = record { now = 0; later = 1; answer = io_ok both }

abbrev second_call : Call
second_call = record { now = seconds 30; later = seconds 30; answer = io_err (other "down") }

served_within_minute : Origin ipv4 (second_call ∷ first_call ∷ []) (v4 2130706433 53 ∷ [])
unfolding after resolve select_family new
served_within_minute =
    resolve-after-Origin "dns.test:53" ipv4 (first_call ∷ []) second_call (v4 2130706433 53 ∷ [])
      refl

resolve-after-IsServed_example : IsServed ipv4 (first_call ∷ []) second_call (v4 2130706433 53 ∷ [])
unfolding after resolve select_family new
resolve-after-IsServed_example =
    resolve-after-IsServed "dns.test:53" ipv4 (first_call ∷ []) second_call (v4 2130706433 53 ∷ [])
      refl

family_of_calls : All (IsOfMode ipv4) (v4 2130706433 53 ∷ [])
unfolding after resolve select_family new
family_of_calls =
    resolve-after-IsOfMode "dns.test:53" ipv4 (first_call ∷ []) second_call (v4 2130706433 53 ∷ [])
      refl

resolve_refines_example :
    results (new "dns.test:53") ((ipv4, first_call) ∷ (ipv6, second_call) ∷ [])
    ≡ expected empty_cache ((ipv4, first_call) ∷ (ipv6, second_call) ∷ [])
resolve_refines_example =
    resolve_refines "dns.test:53" ((ipv4, first_call) ∷ (ipv6, second_call) ∷ [])
