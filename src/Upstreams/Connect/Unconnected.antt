-- ===== src/Upstreams/Connect/Unconnected.antt =====
-- upstreams/proxy_to_upstream/connect.rs, `connect_upstream` where it fails.
use tls_proxy_tunnel.Base.{
  ℕ, ◌+◌, ◌≤◌, ◌<◌, ◌≡◌, refl, subst, inl, inr, false, Option, none, some, List, String, arith, leb,
  is_one_of, Bool-cases,
}
use tls_proxy_tunnel.Net.{SocketAddr, IoError, IoResult, io_ok, io_err}
use tls_proxy_tunnel.Address.{UpstreamAddress, mode_of, resolve}
use tls_proxy_tunnel.Upstreams.Failure.{Failure, io_error, err}
use tls_proxy_tunnel.Upstreams.Connect.{
  Outside, unknown_protocol, timed_out, refused, protocols, connected, timeout_at, dial_resolved,
  resolved_at, connect_upstream,
}

module _ {Stream : Type 0} (show_io : IoError → String) where
  -- Why no connection to the upstream was made.
  pub data IsUnconnected (a : UpstreamAddress) (protocol : String) (timeout : ℕ)
      (o : Outside Stream) : Failure → Type 0 where
    unknown :
        is_one_of protocol protocols ≡ false → IsUnconnected a protocol timeout o unknown_protocol
    unresolved :
        (x : IoError)
        → (resolve a (mode_of protocol) o.now o.answered o.lookup).1 ≡ io_err x
        → IsUnconnected a protocol timeout o (io_error x)
    turned_down :
        (found : List SocketAddr) (delay : ℕ) (x : IoError)
        → (resolve a (mode_of protocol) o.now o.answered o.lookup).1 ≡ io_ok found
        → o.dial found ≡ some (delay, io_err x)
        → delay ≤ timeout + o.lag
        → IsUnconnected a protocol timeout o (refused (show_io x))
    never :
        (found : List SocketAddr)
        → (resolve a (mode_of protocol) o.now o.answered o.lookup).1 ≡ io_ok found
        → o.dial found ≡ none
        → IsUnconnected a protocol timeout o timed_out
    late :
        (found : List SocketAddr) (delay : ℕ) (answer : IoResult Stream)
        → (resolve a (mode_of protocol) o.now o.answered o.lookup).1 ≡ io_ok found
        → o.dial found ≡ some (delay, answer)
        → timeout + o.lag < delay
        → IsUnconnected a protocol timeout o timed_out

  module _ (a : UpstreamAddress) (protocol : String) (timeout : ℕ) (o : Outside Stream)
      (x : Failure) where
    timeout_at-IsUnconnected :
        (start : ℕ) (found : List SocketAddr) (attempt : Option (ℕ × IoResult Stream))
        → (resolve a (mode_of protocol) o.now o.answered o.lookup).1 ≡ io_ok found
        → o.dial found ≡ attempt
        → (timeout_at show_io start (timeout + o.lag) attempt).1 ≡ err x
        → IsUnconnected a protocol timeout o x
    unfolding timeout_at connected
    timeout_at-IsUnconnected start found none resolved dialled h =
        let same : timed_out ≡ x = ground arith in
        subst (IsUnconnected a protocol timeout o) same (never found resolved dialled)
    timeout_at-IsUnconnected start found (some (delay, io_ok stream)) resolved dialled h =
        elim (Bool-cases (leb delay (timeout + o.lag))) [
          | inl soon ↦ absurd (ground arith)
          | inr slow ↦
              let same : timed_out ≡ x = ground arith in
              subst (IsUnconnected a protocol timeout o) same
                (late found delay (io_ok stream) resolved dialled (ground arith))
        ]
    timeout_at-IsUnconnected start found (some (delay, io_err e)) resolved dialled h =
        elim (Bool-cases (leb delay (timeout + o.lag))) [
          | inl soon ↦
              let same : refused (show_io e) ≡ x = ground arith in
              subst (IsUnconnected a protocol timeout o) same
                (turned_down found delay e resolved dialled (ground arith))
          | inr slow ↦
              let same : timed_out ≡ x = ground arith in
              subst (IsUnconnected a protocol timeout o) same
                (late found delay (io_err e) resolved dialled (ground arith))
        ]

    dial_resolved-IsUnconnected :
        (start : ℕ) (r : UpstreamAddress × IoResult (List SocketAddr))
        → (resolve a (mode_of protocol) o.now o.answered o.lookup).1 ≡ r.1
        → (dial_resolved show_io start (timeout + o.lag) o.dial r).outcome ≡ err x
        → IsUnconnected a protocol timeout o x
    unfolding dial_resolved
    dial_resolved-IsUnconnected start (b, io_err e) resolved h =
        let same : io_error e ≡ x = ground arith in
        subst (IsUnconnected a protocol timeout o) same (unresolved e resolved)
    dial_resolved-IsUnconnected start (b, io_ok found) resolved h =
        timeout_at-IsUnconnected start found (o.dial found) resolved refl h

    pub connect_upstream-IsUnconnected :
        (connect_upstream show_io a protocol timeout o).outcome ≡ err x
        → IsUnconnected a protocol timeout o x
    unfolding connect_upstream
    connect_upstream-IsUnconnected h = elim (Bool-cases (is_one_of protocol protocols)) [
      | inl known ↦
          dial_resolved-IsUnconnected (resolved_at a o.now o.answered)
            (resolve a (mode_of protocol) o.now o.answered o.lookup) refl
            (rw (known, connect_upstream) at h)
      | inr other ↦
          let same : unknown_protocol ≡ x = ground arith in
          subst (IsUnconnected a protocol timeout o) same (unknown other)
    ]
