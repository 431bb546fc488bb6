-- ===== src/Upstreams/Connect/Dialled.antt =====
-- upstreams/proxy_to_upstream/connect.rs: attempts that give a stream, and the time that an
-- attempt takes.
use tls_proxy_tunnel.Base.{
  ℕ, ◌+◌, ◌≤◌, ◌≡◌, refl, sym, ap, ◌∙◌, inl, inr, true, Option, none, some, List, String, arith,
  is_one_of, Bool-cases,
}
use tls_proxy_tunnel.Net.{SocketAddr, IoError, IoResult, io_ok, io_err}
use tls_proxy_tunnel.Address.{UpstreamAddress, mode_of, resolve}
use tls_proxy_tunnel.Upstreams.Failure.{ok}
use tls_proxy_tunnel.Upstreams.Connect.{
  Outside, protocols, connected, timeout_at, dial_resolved, resolved_at, connect_upstream,
}

-- An attempt that gave a stream: the protocol is one of the three, `resolve` gave addresses, and
-- the connection to these was made before the timer fired, which counts from the end of `resolve`.
pub record IsDialled {Stream : Type 0} (addresses : UpstreamAddress) (protocol : String)
    (timeout : ℕ) (o : Outside Stream) (stream : Stream) (ended : ℕ) : Type 0 where
  pub known : is_one_of protocol protocols ≡ true
  pub found : List SocketAddr
  pub resolved : (resolve addresses (mode_of protocol) o.now o.answered o.lookup).1 ≡ io_ok found
  pub delay : ℕ
  pub dialled : o.dial found ≡ some (delay, io_ok stream)
  pub in_time : delay ≤ timeout + o.lag
  pub ended_then : ended ≡ resolved_at addresses o.now o.answered + delay

module _ {Stream : Type 0} (show_io : IoError → String) where
  timeout_at_ok :
      (start timeout : ℕ) (attempt : Option (ℕ × IoResult Stream)) (stream : Stream)
      → (timeout_at show_io start timeout attempt).1 ≡ ok stream
      → (delay : ℕ) × (attempt ≡ some (delay, io_ok stream))
        × (delay ≤ timeout)
        × ((timeout_at show_io start timeout attempt).0 ≡ start + delay)
  unfolding timeout_at connected
  timeout_at_ok start timeout none stream h = absurd (cc)
  timeout_at_ok start timeout (some (delay, io_err e)) stream h = ground arith
  timeout_at_ok start timeout (some (delay, io_ok s)) stream h =
      (delay, ground arith, ground arith, ground arith)

  dial_resolved_ok :
      (start timeout : ℕ) (dial : List SocketAddr → Option (ℕ × IoResult Stream))
      (r : UpstreamAddress × IoResult (List SocketAddr)) (stream : Stream)
      → (dial_resolved show_io start timeout dial r).outcome ≡ ok stream
      → (found : List SocketAddr) × (delay : ℕ) × (r.1 ≡ io_ok found)
        × (dial found ≡ some (delay, io_ok stream))
        × (delay ≤ timeout)
        × ((dial_resolved show_io start timeout dial r).ended ≡ start + delay)
  unfolding dial_resolved
  dial_resolved_ok start timeout dial (addresses, io_err e) stream h = absurd (cc)
  dial_resolved_ok start timeout dial (addresses, io_ok found) stream h =
      let (delay, e, in_time, ended) = timeout_at_ok start timeout (dial found) stream h in
      (found, delay, refl, e, in_time, ended)

  -- A stream is returned only for the protocols `tcp`, `tcp4` and `tcp6`, from a connection to the
  -- addresses that `resolve` gave for the protocol, made before the timer that was started when
  -- `resolve` ended fired, and at that time.
  pub connect_upstream-IsDialled :
      (addresses : UpstreamAddress) (protocol : String) (timeout : ℕ) (o : Outside Stream)
      (stream : Stream)
      → (connect_upstream show_io addresses protocol timeout o).outcome ≡ ok stream
      → IsDialled addresses protocol timeout o stream
          (connect_upstream show_io addresses protocol timeout o).ended
  unfolding connect_upstream
  connect_upstream-IsDialled addresses protocol timeout o stream h =
      elim (Bool-cases (is_one_of protocol protocols)) [
        | inr unknown ↦ absurd (ground arith)
        | inl known ↦
            let start = resolved_at addresses o.now o.answered in
            let r = resolve addresses (mode_of protocol) o.now o.answered o.lookup in
            let opened : connect_upstream show_io addresses protocol timeout o
                ≡ dial_resolved show_io start (timeout + o.lag) o.dial r =
              ground arith in
            let (found, delay, e₁, e₂, in_time, ended) =
              dial_resolved_ok start (timeout + o.lag) o.dial r stream
                (ap (λ a. a.outcome) (sym opened) ∙ h) in
            record {
              known = known;
              found = found;
              resolved = e₁;
              delay = delay;
              dialled = e₂;
              in_time = in_time;
              ended_then = ap (λ a. a.ended) opened ∙ ended;
            }
      ]

  -- If the resolver's answer does not come before the call, a connection attempt ends no later than
  -- the timeout and the timer's lag after `resolve` has ended.
  pub connect_upstream-ended :
      (addresses : UpstreamAddress) (protocol : String) (timeout : ℕ) (o : Outside Stream)
      → o.now ≤ o.answered
      → (connect_upstream show_io addresses protocol timeout o).ended
        ≤ resolved_at addresses o.now o.answered + (timeout + o.lag)
  unfolding connect_upstream resolved_at
  connect_upstream-ended addresses protocol timeout o h = ground arith
