-- ===== src/Address.antt =====
-- servers/upstream_address/mod.rs: the DNS cache of one upstream. The clock and the answer of
-- `lookup_host` are arguments. A call here is one uninterrupted run; Tasks takes the locks one by one.
pub mod Cache
pub mod History
pub mod Recent
pub mod Expiry
pub mod Tasks
mod Examples
use tls_proxy_tunnel.Base.{
  ℕ, ◌+◌, ◌-◌, ◌≡◌, Bool, true, false, not, ◌&&◌, Option, none, some, List, [], ◌∷◌, String, ℤ, pos,
  negsuc, ltb, leb, str_eq, if◌then◌else◌,
}
use tls_proxy_tunnel.Net.{
  SocketAddr, is_ipv4, is_ipv6, IoError, IoResult, io_ok, io_err, seconds, minutes,
}

pub data ResolutionMode : Type 0 where
  ipv4_and_ipv6 ipv4 ipv6 : ResolutionMode

-- `From<&str> for ResolutionMode`
unfoldable pub mode_of : String → ResolutionMode
mode_of value =
    if str_eq value "tcp4" then ipv4 else if str_eq value "tcp6" then ipv6 else ipv4_and_ipv6

unfoldable pub show_mode : ResolutionMode → String
show_mode ipv4 = "IPv4Only"
show_mode ipv6 = "IPv6Only"
show_mode ipv4_and_ipv6 = "IPv4 and IPv6"

-- `resolved_time` and `ttl` in nanoseconds.
pub record UpstreamAddress : Type 0 where
  pub address : String
  pub resolved_addresses : List SocketAddr
  pub resolved_time : Option ℕ
  pub ttl : Option ℕ

unfoldable pub new : String → UpstreamAddress
new address = record {
  address = address;
  resolved_addresses = [];
  resolved_time = none;
  ttl = none;
}

valid_at : ℕ → Option ℕ → Option ℕ → Bool
valid_at now (some resolved) (some ttl) = ltb (now - resolved) ttl
valid_at now (some resolved) none = false
valid_at now none ttl = false

unfoldable pub is_valid : UpstreamAddress → ℕ → Bool
unfolding valid_at
is_valid a now = valid_at now a.resolved_time a.ttl

is_empty : List SocketAddr → Bool
is_empty [] = true
is_empty (x ∷ xs) = false

unfoldable pub is_resolved : UpstreamAddress → Bool
unfolding is_empty
is_resolved a = not (is_empty a.resolved_addresses)

-- `t - r.elapsed()` on the signed `time::Duration`
remaining : ℕ → Option ℕ → Option ℕ → ℤ
remaining now (some t) (some r) =
    let elapsed = now - r in if leb elapsed t then pos (t - elapsed) else negsuc (elapsed - t - 1)
remaining now (some t) none = pos 0
remaining now none r = pos 0

-- The clock is read twice, for the validity test and for the difference.
unfoldable pub time_remaining : UpstreamAddress → ℕ → ℕ → ℤ
unfolding is_valid remaining
time_remaining a now later =
    if not (is_valid a now) then pos 0 else remaining later a.ttl a.resolved_time

unfoldable pub filter_addresses : (SocketAddr → Bool) → List SocketAddr → List SocketAddr
filter_addresses keep [] = []
filter_addresses keep (x ∷ xs) =
    if keep x then x ∷ filter_addresses keep xs else filter_addresses keep xs

unfoldable pub select_family : ResolutionMode → List SocketAddr → List SocketAddr
unfolding filter_addresses
select_family ipv4 xs = filter_addresses is_ipv4 xs
select_family ipv6 xs = filter_addresses is_ipv6 xs
select_family ipv4_and_ipv6 xs = xs

-- The part of `resolve` after the lookup, which ended at `now`.
unfoldable pub store :
    ResolutionMode
    → ℕ
    → UpstreamAddress
    → IoResult (List SocketAddr)
    → UpstreamAddress × IoResult (List SocketAddr)
unfolding select_family
store mode now a (io_err e) =
    (record a { resolved_time = some now; ttl = some (seconds 3) }, io_err e)
store mode now a (io_ok found) =
    let addresses = select_family mode found in
    (
      record a { resolved_addresses = addresses; resolved_time = some now; ttl = some (minutes 1) },
      io_ok addresses,
    )

-- `now` is the time of the call, `later` that of the answer `lookup`, which is asked for only when
-- the cache does not serve.
unfoldable pub resolve :
    UpstreamAddress
    → ResolutionMode
    → (now later : ℕ) (lookup : IoResult (List SocketAddr))
    → UpstreamAddress × IoResult (List SocketAddr)
unfolding is_resolved is_valid store
resolve a mode now later lookup =
    if is_resolved a && is_valid a now
    then (a, io_ok a.resolved_addresses)
    else store mode later a lookup
