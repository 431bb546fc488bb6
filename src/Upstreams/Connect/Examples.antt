-- ===== src/Upstreams/Connect/Examples.antt =====
-- Tests of the connection attempt, and its theorems at concrete inputs.
use tls_proxy_tunnel.Base.{ℕ, ◌+◌, ◌≤◌, ◌≡◌, refl, Option, none, some, List, [], ◌∷◌, String, arith}
use tls_proxy_tunnel.Net.{SocketAddr, v4, v6, IoError, IoResult, io_ok, seconds}
use tls_proxy_tunnel.Address.{
  UpstreamAddress, mode_of, is_resolved, is_valid, filter_addresses, select_family, store, resolve,
}
use tls_proxy_tunnel.Upstreams.Failure.{ok, err}
use tls_proxy_tunnel.Upstreams.Connect.{
  Outside, Attempt, unknown_protocol, timed_out, connected, timeout_at, dial_resolved, resolved_at,
  connect_upstream,
}
use tls_proxy_tunnel.Config.Yaml.{ServerYaml, read_server}
use tls_proxy_tunnel.Upstreams.Connect.Unconfigured.{in_lag, connect_upstream_unconfigured}
use tls_proxy_tunnel.Upstreams.Connect.Timing.{IsEnd, connect_upstream-IsEnd}
use tls_proxy_tunnel.Upstreams.Connect.Dialled.{
  IsDialled, connect_upstream-IsDialled, connect_upstream-ended,
}

abbrev show_io : IoError → String
show_io e = "an error"

abbrev dial : List SocketAddr → Option (ℕ × IoResult ℕ)
dial [] = none
dial (a ∷ rest) = some (seconds 1, io_ok 5)

-- The lookup alone takes ten seconds.
abbrev slow : Outside ℕ
slow = record {
  now = 0;
  answered = seconds 10;
  lookup = io_ok (v6 1 80 ∷ v4 1 80 ∷ []);
  dial = dial;
  lag = 1_000_000;
}

abbrev fresh : UpstreamAddress
fresh = record { address = "h:80"; resolved_addresses = []; resolved_time = none; ttl = none }

abbrev attempt : String → ℕ → Attempt ℕ
attempt protocol timeout = connect_upstream show_io fresh protocol timeout slow

connects : (attempt "tcp4" (seconds 2)).outcome ≡ ok 5
unfolding connect_upstream dial_resolved timeout_at connected resolved_at resolve is_resolved
    is_valid store select_family filter_addresses mode_of
connects = refl

times_out : (attempt "tcp4" 5).outcome ≡ err timed_out
unfolding connect_upstream dial_resolved timeout_at connected resolved_at resolve is_resolved
    is_valid store select_family filter_addresses mode_of
times_out = refl

refuses : (attempt "udp" 5).outcome ≡ err unknown_protocol
unfolding connect_upstream
refuses = refl

-- With a timeout of two seconds the call takes eleven.
takes_long : (attempt "tcp4" (seconds 2)).ended ≡ seconds 11
unfolding connect_upstream dial_resolved timeout_at connected resolved_at resolve is_resolved
    is_valid store select_family filter_addresses mode_of
takes_long = refl

connects_to_answer : IsDialled fresh "tcp4" (seconds 2) slow 5 (attempt "tcp4" (seconds 2)).ended
connects_to_answer = connect_upstream-IsDialled show_io fresh "tcp4" (seconds 2) slow 5 connects

-- No later than the timeout and the lag behind the answer.
ends_in_time :
    (attempt "tcp4" (seconds 2)).ended ≤ resolved_at fresh 0 (seconds 10) + (seconds 2 + 1_000_000)
ends_in_time = connect_upstream-ended show_io fresh "tcp4" (seconds 2) slow (omega arith)

connect_upstream-IsEnd_example :
    IsEnd fresh "tcp4" (seconds 2) slow (attempt "tcp4" (seconds 2)).ended
connect_upstream-IsEnd_example = connect_upstream-IsEnd show_io fresh "tcp4" (seconds 2) slow

abbrev plain : ServerYaml
plain = record {
  listen = "[::]:80" ∷ [];
  protocol = none;
  tls = none;
  sni = none;
  default = some "up";
  via = none;
  maxclients = none;
}

-- The connection takes a second, and the timer fires after a millisecond.
connect_upstream_unconfigured_example :
    (attempt "tcp4" (read_server plain).via.connect_timeout).outcome
    ≡ in_lag show_io 1_000_000 (seconds 1) (io_ok 5)
unfolding resolve is_resolved is_valid store select_family filter_addresses mode_of
connect_upstream_unconfigured_example =
    connect_upstream_unconfigured show_io plain fresh "tcp4" slow (v4 1 80 ∷ []) (seconds 1)
      (io_ok 5) refl refl refl refl

-- A connection on the same machine can be made before that.
abbrev near : List SocketAddr → Option (ℕ × IoResult ℕ)
near addresses = some (50_000, io_ok 5)

connects_nearby :
    (connect_upstream show_io fresh "tcp4"
      (read_server plain).via.connect_timeout
      (record slow { dial = near })).outcome
    ≡ ok 5
unfolding connect_upstream dial_resolved timeout_at connected resolved_at resolve is_resolved
    is_valid store select_family filter_addresses mode_of read_server
connects_nearby = refl
