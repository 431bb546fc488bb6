-- ===== src/Upstreams/Process/Sequence.antt =====
-- upstreams/mod.rs, `Upstream::process`, with the DNS cache: connections that go through one
-- upstream, one after the other.
use tls_proxy_tunnel.Base.{
  ℕ, ◌+◌, ◌≤◌, ◌≡◌, refl, sym, ap, ◌∙◌, subst, Bool, true, Option, some, List, [], ◌∷◌, map, Char,
  String, is_one_of,
}
use tls_proxy_tunnel.Net.{SocketAddr, IoError, IoResult, io_ok}
use tls_proxy_tunnel.Config.Types.{ViaUpstream}
use tls_proxy_tunnel.Address.{UpstreamAddress, mode_of, resolve}
use tls_proxy_tunnel.Address.History.{Call, after}
use tls_proxy_tunnel.Address.Recent.{IsServed, resolve-after-IsServed}
use tls_proxy_tunnel.Upstreams.Types.{ProxyToUpstream, Upstream, proxy, new}
use tls_proxy_tunnel.Upstreams.Connect.{
  Outside, protocols, dial_resolved, resolved_at, connect_upstream,
}
use tls_proxy_tunnel.Upstreams.Http.{done}
use tls_proxy_tunnel.Upstreams.Process.{World, Proxied, proxied, proxy_connection, process}
use tls_proxy_tunnel.Upstreams.Process.Tunnelled.{IsProxied, process-IsProxied}

-- A connection to an upstream.
pub record Visit (Stream : Type 0) : Type 0 where
  pub via : ViaUpstream
  pub target : Option String
  pub world : World Stream

-- What its `resolve` asks for.
abbrev pub call_of : {Stream : Type 0} → Visit Stream → Call
call_of v = record {
  now = v.world.outside.now;
  later = v.world.outside.answered;
  answer = v.world.outside.lookup;
}

module _ {Stream : Type 0} (show_io : IoError → String) where
  dial_resolved-addresses :
      (start timeout : ℕ) (dial : List SocketAddr → Option (ℕ × IoResult Stream))
      (r : UpstreamAddress × IoResult (List SocketAddr))
      → (dial_resolved show_io start timeout dial r).addresses ≡ r.0
  unfolding dial_resolved
  dial_resolved-addresses start timeout dial (a, io_ok found) = refl
  dial_resolved-addresses start timeout dial (a, IoResult.io_err e) = refl

  connect_upstream-addresses :
      (a : UpstreamAddress) (protocol : String) (timeout : ℕ) (o : Outside Stream)
      → is_one_of protocol protocols ≡ true
      → (connect_upstream show_io a protocol timeout o).addresses
        ≡ (resolve a (mode_of protocol) o.now o.answered o.lookup).0
  unfolding connect_upstream
  connect_upstream-addresses a protocol timeout o known =
      rw (known, connect_upstream)
        (dial_resolved-addresses (resolved_at a o.now o.answered) (timeout + o.lag) o.dial
          (resolve a (mode_of protocol) o.now o.answered o.lookup))

-- The proxy upstream with the cache of these calls.
abbrev cached_upstream : String → String → List Call → ProxyToUpstream
cached_upstream addr protocol calls = record {
  addr = addr;
  protocol = protocol;
  addresses = after addr (mode_of protocol) calls;
}

abbrev pub at_cache : String → String → List Call → Upstream
at_cache addr protocol calls = proxy (cached_upstream addr protocol calls)

proxy_injective : (p q : ProxyToUpstream) → proxy p ≡ proxy q → p ≡ q
proxy_injective p q e = cc

-- The addresses that a connection was made to.
pub record IsDialledRecently {Stream : Type 0} (protocol : String) (earlier : List (Visit Stream))
    (v : Visit Stream) : Type 0 where
  pub found : List SocketAddr
  pub served : IsServed (mode_of protocol) (map (λ x. call_of x) earlier) (call_of v) found
  pub stream : Stream
  pub delay : ℕ
  pub dialled : v.world.outside.dial found ≡ some (delay, io_ok stream)
  pub in_time : delay ≤ v.via.connect_timeout + v.world.outside.lag

module _ {Stream : Type 0} (is_alphanumeric : Char → Bool) (env : String → Option String)
    (show_io : IoError → String) where
  -- The upstream after some visits, the latest first.
  abbrev pub visited : Upstream → List (Visit Stream) → Upstream
  visited u [] = u
  visited u (v ∷ earlier) =
      (process is_alphanumeric env show_io (visited u earlier) v.via v.target v.world).0

  visit-at_cache :
      (addr protocol : String) (calls : List Call) (v : Visit Stream)
      → is_one_of protocol protocols ≡ true
      → (process is_alphanumeric env show_io
          (at_cache addr protocol calls)
          v.via
          v.target
          v.world).0
        ≡ at_cache addr protocol (call_of v ∷ calls)
  unfolding process proxy_connection after
  visit-at_cache addr protocol calls v known =
      ap (λ a. Upstream.proxy (record { addr = addr; protocol = protocol; addresses = a }))
        (connect_upstream-addresses show_io (after addr (mode_of protocol) calls) protocol
          v.via.connect_timeout v.world.outside known)

  visited-at_cache :
      (addr protocol : String) (visits : List (Visit Stream))
      → is_one_of protocol protocols ≡ true
      → visited (proxy (new addr protocol)) visits
        ≡ at_cache addr protocol (map (λ v. call_of v) visits)
  unfolding after new
  visited-at_cache addr protocol [] known = refl
  visited-at_cache addr protocol (v ∷ earlier) known =
      ap (λ u. (process is_alphanumeric env show_io u v.via v.target v.world).0)
        (visited-at_cache addr protocol earlier known)
      ∙ visit-at_cache addr protocol (map (λ x. call_of x) earlier) v known

  -- If connections go one after the other through a new proxy upstream with one of the known
  -- protocols, and the processing of a further one ends as a proxied connection, then its upstream
  -- was reached, before the timer of the timeout fired, at addresses that are the protocol's share
  -- of one successful answer of the resolver, to this connection or to an earlier one; and they are
  -- this share of the answer to this connection, or the lookup of some earlier connection ended
  -- less than a minute before if it succeeded, and less than three seconds before if it failed.
  pub process-visited-IsDialledRecently :
      (addr protocol : String) (earlier : List (Visit Stream)) (v : Visit Stream) (d : Proxied)
      → is_one_of protocol protocols ≡ true
      → (process is_alphanumeric env show_io
          (visited (proxy (new addr protocol)) earlier)
          v.via
          v.target
          v.world).1
        ≡ done (proxied d)
      → IsDialledRecently protocol earlier v
  process-visited-IsDialledRecently addr protocol earlier v d known h =
      let calls = map (λ x. call_of x) earlier in
      let same = visited-at_cache addr protocol earlier known in
      let (p, e, of_p) =
        process-IsProxied is_alphanumeric env show_io (at_cache addr protocol calls) v.via v.target
          v.world d
          (ap (λ u. (process is_alphanumeric env show_io u v.via v.target v.world).1) (sym same)
            ∙ h) in
      let i =
        subst (λ q. IsProxied is_alphanumeric env show_io q v.via v.target v.world d)
          (sym (proxy_injective (cached_upstream addr protocol calls) p e)) of_p in
      record {
        found = i.dialled.found;
        served =
            resolve-after-IsServed addr (mode_of protocol) calls (call_of v) i.dialled.found
              i.dialled.resolved;
        stream = i.stream;
        delay = i.dialled.delay;
        dialled = i.dialled.dialled;
        in_time = i.dialled.in_time;
      }
