-- ===== src/Address/Cache.antt =====
-- servers/upstream_address/mod.rs, `resolve`: a call that follows a lookup.
use tls_proxy_tunnel.Base.{ℕ, ◌+◌, ◌≤◌, ◌≡◌, ◌≢◌, List, [], arith, ltb, ◌&&◌, if◌then◌else◌}
use tls_proxy_tunnel.Net.{SocketAddr, IoError, IoResult, io_ok, io_err, seconds, minutes}
use tls_proxy_tunnel.Address.{
  ResolutionMode, UpstreamAddress, select_family, store, resolve, is_resolved,
}

-- After a lookup that ended at time `t` and gave some address of the family, a call not before `t`
-- and less than 60 seconds later returns these addresses and changes nothing, whatever the resolver
-- would have said; a later call takes and stores the new answer.
pub resolve_after_success :
    (a : UpstreamAddress) (mode : ResolutionMode) (t now later : ℕ) (found : List SocketAddr)
    (answer : IoResult (List SocketAddr))
    → t ≤ now
    → select_family mode found ≢ []
    → let b = (store mode t a (io_ok found)).0 in
      resolve b mode now later answer ≡ (
        if ltb now (t + minutes 1)
        then (b, io_ok (select_family mode found))
        else store mode later b answer)
unfolding resolve store
resolve_after_success a mode t now later found answer h some_left = ground arith

-- After a failed lookup at time `t` the old addresses stay: if there were any, a call not before
-- `t` and less than three seconds later returns them as good; otherwise the call looks up again and
-- stores the answer.
pub resolve_after_failure :
    (a : UpstreamAddress) (mode : ResolutionMode) (t now later : ℕ) (e : IoError)
    (answer : IoResult (List SocketAddr))
    → t ≤ now
    → let b = (store mode t a (io_err e)).0 in
      resolve b mode now later answer ≡ (
        if is_resolved a && ltb now (t + seconds 3)
        then (b, io_ok a.resolved_addresses)
        else store mode later b answer)
unfolding resolve store
resolve_after_failure a mode t now later e answer h = ground arith
