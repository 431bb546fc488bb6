-- ===== src/Servers/Accept.antt =====
-- servers/protocol/tcp.rs, `accept`: one connection, from the peek at the ClientHello to the end of
-- its processing. The lines that are logged are not modelled, except that the one with the
-- connection counts, if it is logged, needs the peer's address.
pub mod Choices
pub mod Sample
pub mod Ends
pub mod Hello
mod Examples
use Prim.Native.String
use tls_proxy_tunnel.Base.{
  ℕ, ◌-◌, Bool, true, false, Option, none, some, List, [], ◌++◌, Char, String, length, take,
  replicate, if◌then◌else◌,
}
use tls_proxy_tunnel.Base.Dict.{Dict, get, insert}
use tls_proxy_tunnel.Net.{SocketAddr, IoError, IoResult, io_ok, io_err}
use tls_proxy_tunnel.Config.Types.{ViaUpstream}
use tls_proxy_tunnel.Utf8.{Bytes}
use tls_proxy_tunnel.Upstreams.Types.{Upstream}
use tls_proxy_tunnel.Upstreams.Failure.{Failure, Result, ok, err, io_error, message}
use tls_proxy_tunnel.Upstreams.Http.{Progress, done, failed, waiting}
use tls_proxy_tunnel.Upstreams.Process.{World, Processed, process}
use tls_proxy_tunnel.Servers.Types.{Proxy, is_health_server}
use tls_proxy_tunnel.Servers.Tls.{TlsParser, get_sni}
use tls_proxy_tunnel.Servers.Routing.{
  route, unwrap_or, connect_target, Picked, found, fallback, missing, pick_upstream,
}

abbrev pub hello_size : ℕ
hello_size = 4096

-- The buffer after `peek`: the bytes that have arrived, in front of zeros.
unfoldable pub hello_buf : Bytes → Bytes
hello_buf arrived =
    let begin = take hello_size arrived in begin ++ replicate (hello_size - length begin) 0

-- What the inbound socket answers to `peer_addr` and to `peek`, and whether the log takes lines of
-- the level `info`: only then the arguments of `info!` are evaluated.
pub record Inbound : Type 0 where
  pub logs_info : Bool
  pub peer_addr : IoResult SocketAddr
  pub peek : IoResult Bytes

-- The choices for a connection, what became of it, and the server's upstreams afterwards.
pub record Handled : Type 0 where
  pub name : String
  pub via : ViaUpstream
  pub target : Option String
  pub upstreams : Dict Upstream
  pub result : Progress Processed

pub data Accepted : Type 0 where
  handled : Handled → Accepted
  refused : Failure → Accepted

abbrev pub no_default : Proxy → Failure
no_default p = message (
    String.◌++◌ "default upstream '" (
      String.◌++◌ p.default_action
        (String.◌++◌ "' not found on server '" (String.◌++◌ p.name "'"))))

-- `inbound.peer_addr()?`, an argument of the log line of a server that counts its connections.
unfoldable pub peer_checked : Proxy → Inbound → Result (Unit {0})
unfolding is_health_server
peer_checked p inbound =
    if is_health_server p
    then ok tt
    else if inbound.logs_info
    then elim inbound.peer_addr [ io_ok a ↦ ok tt | io_err e ↦ err (io_error e) ]
    else ok tt

unfoldable pub peeked : TlsParser → IoResult Bytes → Result (List String)
unfolding hello_buf get_sni
peeked parser (io_ok arrived) = ok (get_sni parser (hello_buf arrived))
peeked parser (io_err e) = err (io_error e)

unfoldable pub read_snis : TlsParser → Proxy → Inbound → Result (List String)
unfolding peeked
read_snis parser p inbound = if p.tls then peeked parser inbound.peek else ok []

module _ {Stream : Type 0} (is_alphanumeric : Char → Bool) (env : String → Option String)
    (show_io : IoError → String) where
  -- `upstream.process(…)`. The caches are shared, so the upstream stands in the map as it is
  -- afterwards.
  unfoldable pub process_at :
      Proxy → String → String → ViaUpstream → Option String → World Stream → Upstream → Handled
  unfolding process insert
  process_at p key name via target w u =
      let (u', result) = process is_alphanumeric env show_io u via target w in
      record {
        name = name;
        via = via;
        target = target;
        upstreams = insert p.upstream key u';
        result = result;
      }

  unfoldable pub handle_picked :
      Proxy → String → ViaUpstream → Option String → World Stream → Picked → Accepted
  unfolding process_at
  handle_picked p name via target w (found u) = handled (process_at p name name via target w u)
  handle_picked p name via target w (fallback u) =
      handled (process_at p p.default_action name via target w u)
  handle_picked p name via target w missing = refused (no_default p)

  unfoldable pub handle : Proxy → World Stream → List String → Accepted
  unfolding route connect_target pick_upstream handle_picked
  handle p w snis =
      let (name, override) = route p snis in
      let via = unwrap_or override p.via in
      handle_picked p name via (connect_target via snis) w (pick_upstream p name)

  pub after_snis : Proxy → World Stream → Result (List String) → Accepted
  unfolding handle
  after_snis p w (ok snis) = handle p w snis
  after_snis p w (err e) = refused e

  unfoldable pub accept : TlsParser → Proxy → Inbound → World Stream → Accepted
  unfolding peer_checked read_snis after_snis
  accept parser p inbound w = elim (peer_checked p inbound) [
    | ok u ↦ after_snis p w (read_snis parser p inbound)
    | err e ↦ refused e
  ]

-- What the task that runs `accept` gets: the result of the processing is logged and dropped.
unfoldable pub returned : Accepted → Progress (Unit {0})
returned (refused e) = failed e
returned (handled h) = elim h.result [ done p ↦ done tt | failed e ↦ done tt | waiting ↦ waiting ]
