-- ===== src/Upstreams/Connect/Timing.antt =====
-- upstreams/proxy_to_upstream/connect.rs, `connect_upstream`: when an attempt ends.
use tls_proxy_tunnel.Base.{
  ℕ, ◌+◌, ◌≡◌, refl, sym, subst, inl, inr, true, false, ◌&&◌, Option, none, some, List, String,
  arith, leb, is_one_of, Bool-cases, if◌then◌else◌,
}
use tls_proxy_tunnel.Net.{SocketAddr, IoError, IoResult, io_ok, io_err}
use tls_proxy_tunnel.Address.{
  ResolutionMode, UpstreamAddress, mode_of, is_resolved, is_valid, select_family, store, resolve,
}
use tls_proxy_tunnel.Upstreams.Connect.{
  Outside, protocols, timeout_at, dial_resolved, resolved_at, connect_upstream,
}

-- The mode's share of a lookup's answer.
abbrev pub share_of : ResolutionMode → IoResult (List SocketAddr) → IoResult (List SocketAddr)
share_of mode (io_ok found) = io_ok (select_family mode found)
share_of mode (io_err e) = io_err e

store-share_of :
    (mode : ResolutionMode) (later : ℕ) (a : UpstreamAddress) (answer : IoResult (List SocketAddr))
    → (store mode later a answer).1 ≡ share_of mode answer
unfolding store
store-share_of mode later a (io_ok found) = refl
store-share_of mode later a (io_err e) = refl

module _ {Stream : Type 0} where
  -- How long an attempt takes that is given up when the timer fires.
  abbrev pub cut_off : ℕ → Option (ℕ × IoResult Stream) → ℕ
  cut_off limit none = limit
  cut_off limit (some (delay, answer)) = if leb delay limit then delay else limit

  -- Without addresses there is no attempt.
  abbrev pub dial_time :
      ℕ → (List SocketAddr → Option (ℕ × IoResult Stream)) → IoResult (List SocketAddr) → ℕ
  dial_time limit dial (io_ok found) = cut_off limit (dial found)
  dial_time limit dial (io_err e) = 0

  -- When an attempt ends: at once with an unknown protocol, and otherwise by its own time behind
  -- the call if the cache serves, and behind the resolver's answer if it does not.
  pub data IsEnd (a : UpstreamAddress) (protocol : String) (timeout : ℕ) (o : Outside Stream)
      : ℕ → Type 0 where
    unknown : is_one_of protocol protocols ≡ false → IsEnd a protocol timeout o o.now
    served :
        is_one_of protocol protocols ≡ true
        → is_resolved a && is_valid a o.now ≡ true
        → IsEnd a protocol timeout o
            (o.now + dial_time (timeout + o.lag) o.dial (io_ok a.resolved_addresses))
    looked_up :
        is_one_of protocol protocols ≡ true
        → is_resolved a && is_valid a o.now ≡ false
        → IsEnd a protocol timeout o
            (o.answered + dial_time (timeout + o.lag) o.dial (share_of (mode_of protocol) o.lookup))

  module _ (show_io : IoError → String) where
    timeout_at-cut_off :
        (start limit : ℕ) (attempt : Option (ℕ × IoResult Stream))
        → (timeout_at show_io start limit attempt).0 ≡ start + cut_off limit attempt
    unfolding timeout_at
    timeout_at-cut_off start limit none = refl
    timeout_at-cut_off start limit (some (delay, answer)) = ground arith

    dial_resolved-dial_time :
        (start limit : ℕ) (dial : List SocketAddr → Option (ℕ × IoResult Stream))
        (r : UpstreamAddress × IoResult (List SocketAddr))
        → (dial_resolved show_io start limit dial r).ended ≡ start + dial_time limit dial r.1
    unfolding dial_resolved
    dial_resolved-dial_time start limit dial (a, io_ok found) =
        timeout_at-cut_off start limit (dial found)
    dial_resolved-dial_time start limit dial (a, io_err e) = omega arith

    known-IsEnd :
        (a : UpstreamAddress) (protocol : String) (timeout : ℕ) (o : Outside Stream)
        → is_one_of protocol protocols ≡ true
        → IsEnd a protocol timeout o (
            resolved_at a o.now o.answered
            + dial_time
                (timeout + o.lag)
                o.dial
                (resolve a (mode_of protocol) o.now o.answered o.lookup).1)
    unfolding resolve resolved_at
    known-IsEnd a protocol timeout o known = elim (Bool-cases (is_resolved a && is_valid a o.now)) [
      | inl hit ↦ rw (hit, resolve, resolved_at) (served known hit)
      | inr miss ↦
          rw (miss, resolve, resolved_at)
            (subst
              (λ r. IsEnd a protocol timeout o (o.answered + dial_time (timeout + o.lag) o.dial r))
              (sym (store-share_of (mode_of protocol) o.answered a o.lookup))
              (looked_up known miss))
    ]

    -- When a connection attempt ends: at the call if the protocol is unknown; otherwise at the call
    -- if the cache serves its addresses, and at the resolver's answer if it does not, plus the time
    -- that the connection to these addresses, or to the mode's share of the answer, takes, which is
    -- cut off when the timer fires, at the timeout and its lag, and is none if the lookup failed;
    -- so that the time of a lookup comes on top of the timeout.
    pub connect_upstream-IsEnd :
        (a : UpstreamAddress) (protocol : String) (timeout : ℕ) (o : Outside Stream)
        → IsEnd a protocol timeout o (connect_upstream show_io a protocol timeout o).ended
    unfolding connect_upstream
    connect_upstream-IsEnd a protocol timeout o = elim (Bool-cases (is_one_of protocol protocols)) [
      | inr other ↦ rw (other, connect_upstream) (unknown other)
      | inl known ↦
          rw (known, connect_upstream)
            (subst (IsEnd a protocol timeout o)
              (sym (
                dial_resolved-dial_time (resolved_at a o.now o.answered) (timeout + o.lag) o.dial
                  (resolve a (mode_of protocol) o.now o.answered o.lookup)))
              (known-IsEnd a protocol timeout o known))
    ]
