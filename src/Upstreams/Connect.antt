-- ===== src/Upstreams/Connect.antt =====
-- upstreams/proxy_to_upstream/connect.rs, `connect_upstream`. Times are nanoseconds; the lookup and
-- `TcpStream::connect` are parameters, and so are the texts of I/O errors. A timer of tokio has a
-- granularity of a millisecond and is rounded up: it fires at its time or later, by a lag that is a
-- parameter too, and after what is ready when it fires. Every lookup answers at some time.
pub mod Dialled
pub mod Unconfigured
pub mod Unconnected
pub mod Timing
mod Examples
use Prim.Native.String
use tls_proxy_tunnel.Base.{
  ℕ, ◌+◌, Bool, true, false, ◌&&◌, Option, none, some, List, [], ◌∷◌, String, leb, is_one_of,
  if◌then◌else◌,
}
use tls_proxy_tunnel.Net.{SocketAddr, IoError, IoResult, io_ok, io_err}
use tls_proxy_tunnel.Address.{UpstreamAddress, mode_of, is_resolved, is_valid, resolve}
use tls_proxy_tunnel.Upstreams.Failure.{Failure, Result, ok, err, proxy_error, io_error, message}

-- What the outside does for one connection: the time `now` of the call, the answer `lookup` that
-- the resolver gives at `answered` if it is asked, how long a connection attempt to some addresses
-- takes with its outcome, `none` for one that never ends, and how late the timer fires.
pub record Outside (Stream : Type 0) : Type 0 where
  pub now : ℕ
  pub answered : ℕ
  pub lookup : IoResult (List SocketAddr)
  pub dial : List SocketAddr → Option (ℕ × IoResult Stream)
  pub lag : ℕ

abbrev pub unknown_protocol : Failure
unknown_protocol = message "Reached unknown protocol"

abbrev pub timed_out : Failure
timed_out = proxy_error "connection to upstream timed out: Elapsed(())"

abbrev pub refused : String → Failure
refused text = proxy_error (String.◌++◌ "failed to connect to upstream: " text)

abbrev pub protocols : List String
protocols = "tcp4" ∷ "tcp6" ∷ "tcp" ∷ []

-- The cache afterwards, the time of the return, and the stream or the error.
pub record Attempt (Stream : Type 0) : Type 0 where
  pub addresses : UpstreamAddress
  pub ended : ℕ
  pub outcome : Result Stream

-- When `resolve` returns: at once from the cache, or with the resolver's answer.
unfoldable pub resolved_at : UpstreamAddress → ℕ → ℕ → ℕ
unfolding is_resolved is_valid
resolved_at a now answered = if is_resolved a && is_valid a now then now else answered

module _ {Stream : Type 0} (show_io : IoError → String) where
  unfoldable pub connected : IoResult Stream → Result Stream
  connected (io_ok stream) = ok stream
  connected (io_err e) = err (refused (show_io e))

  -- `tokio::time::timeout` around the attempt, from the time `start`, with a timer that fires
  -- `limit` later.
  unfoldable pub timeout_at : ℕ → ℕ → Option (ℕ × IoResult Stream) → ℕ × Result Stream
  unfolding connected
  timeout_at start limit none = (start + limit, err timed_out)
  timeout_at start limit (some (delay, answer)) =
      if leb delay limit then (start + delay, connected answer) else (start + limit, err timed_out)

  -- The argument of `timeout` awaits `resolve` before the timer is made.
  unfoldable pub dial_resolved :
      ℕ
      → ℕ
      → (List SocketAddr → Option (ℕ × IoResult Stream))
      → UpstreamAddress × IoResult (List SocketAddr)
      → Attempt Stream
  unfolding timeout_at
  dial_resolved start limit dial (addresses, io_err e) = record {
    addresses = addresses;
    ended = start;
    outcome = err (io_error e);
  }
  dial_resolved start limit dial (addresses, io_ok found) =
      let (ended, outcome) = timeout_at start limit (dial found) in
      record { addresses = addresses; ended = ended; outcome = outcome }

  unfoldable pub connect_upstream : UpstreamAddress → String → ℕ → Outside Stream → Attempt Stream
  unfolding resolve dial_resolved resolved_at
  connect_upstream addresses protocol timeout o =
      if is_one_of protocol protocols
      then dial_resolved (resolved_at addresses o.now o.answered) (timeout + o.lag) o.dial
          (resolve addresses (mode_of protocol) o.now o.answered o.lookup)
      else record { addresses = addresses; ended = o.now; outcome = err unknown_protocol }
