-- ===== src/Upstreams/Process/Examples.antt =====
-- Tests of a connection's processing, and its theorem for a connection through CONNECT.
use tls_proxy_tunnel.Base.{
  ℕ, ◌≡◌, ◌≢◌, refl, arith, replicate, Bool, true, false, Option, none, some, List, [], ◌∷◌, map,
  Char, String,
}
use tls_proxy_tunnel.Net.{SocketAddr, v4, IoError, would_block, IoResult, io_ok, io_err, seconds}
use tls_proxy_tunnel.Address.{
  mode_of, is_resolved, is_valid, filter_addresses, select_family, store, resolve,
}
use tls_proxy_tunnel.Config.Types.{ViaUpstream, default_via}
use tls_proxy_tunnel.Base.Texts.{codes}
use tls_proxy_tunnel.Utf8.{as_bytes}
use tls_proxy_tunnel.Upstreams.Types.{ProxyToUpstream, Upstream, ban, echo, proxy, new}
use tls_proxy_tunnel.Upstreams.Failure.{io_error}
use tls_proxy_tunnel.Upstreams.Connect.{
  connected, timeout_at, dial_resolved, resolved_at, connect_upstream,
}
use tls_proxy_tunnel.Upstreams.Status.{parse_connect_status, check_status}
use tls_proxy_tunnel.Upstreams.Http.{
  build_request, write_loop, wrote, read_loop, finish_read, has_header_end, got, Progress, done,
  failed, waiting, closed_early, http_connect,
}
use tls_proxy_tunnel.Upstreams.Relay.{
  chunk, sent, received, new_relay, copy_step, copy_round, finish, is_over, relay_round, relay_step,
  relay, result,
}
use tls_proxy_tunnel.Upstreams.Process.{
  World, Proxied, Processed, echoed, proxied, proxy_connection, process,
}
use tls_proxy_tunnel.Upstreams.Process.Sequence.{
  Visit, IsDialledRecently, process-visited-IsDialledRecently,
}
use tls_proxy_tunnel.Upstreams.Header.{resolve_header_value}
use tls_proxy_tunnel.Upstreams.Http.Request.Written.{field_of}
use tls_proxy_tunnel.Upstreams.Process.Requested.{read_sent, process-read_sent}
use tls_proxy_tunnel.Upstreams.Process.Fails.{IsFailure, process-IsFailure}
use tls_proxy_tunnel.Upstreams.Process.Ends.{Answers, process_ends}
use tls_proxy_tunnel.Upstreams.Process.Tunnelled.{IsProxied, process-IsProxied}

abbrev no_alphanumeric : Char → Bool
no_alphanumeric c = false

abbrev no_env : String → Option String
no_env name = none

abbrev show_io : IoError → String
show_io e = "an error"

abbrev dial : List SocketAddr → Option (ℕ × IoResult ℕ)
dial [] = none
dial (a ∷ rest) = some (seconds 1, io_ok 5)

abbrev world : World ℕ
world = record {
  outside = record { now = 0; answered = 1; lookup = io_ok (v4 1 80 ∷ []); dial = dial; lag = 0 };
  outbound_nodelay = io_ok tt;
  inbound_nodelay = io_ok tt;
  writes = wrote 24 ∷ [];
  reads = got (codes "HTTP/1.1 200 OK\r\n\r\n") ∷ [];
  events = sent (chunk (1 ∷ 2 ∷ [])) ∷ received (chunk []) ∷ sent (chunk []) ∷ [];
  shutdown = io_err would_block;
  copied = some (io_err would_block);
}

abbrev upstream : ProxyToUpstream
upstream = record {
  addr = "h:80";
  protocol = "tcp";
  addresses = record {
    address = "h:80";
    resolved_addresses = [];
    resolved_time = none;
    ttl = none;
  };
}

abbrev via : ViaUpstream
via = record default_via { connect_timeout = seconds 1 }

abbrev run : Upstream → Progress Processed
run u = (process no_alphanumeric no_env show_io u via (some "a:1") world).1

abbrev ended : Proxied
ended = record {
  label = "h:80 → a:1";
  sent = codes "CONNECT a:1 HTTP/1.1\r\n\r\n";
  relay = record {
    tx = record { written = 1 ∷ 2 ∷ []; total = 2; counter = 2; shut_down = true; returned = true };
    rx = record { written = []; total = 0; counter = 0; shut_down = true; returned = true };
    stats = false;
    logged = [];
  };
  tx = 2;
  rx = 0;
}

proxies : run (proxy upstream) ≡ done (proxied ended)
unfolding process proxy_connection connect_upstream dial_resolved timeout_at connected resolved_at
    resolve is_resolved is_valid store select_family filter_addresses mode_of http_connect
    build_request write_loop read_loop finish_read has_header_end parse_connect_status check_status
    as_bytes relay relay_step relay_round is_over result new_relay copy_step copy_round finish
proxies = refl

-- A failed `shutdown` is the error of a banned connection; a failed copy is no error of an echo.
ban_fails : run ban ≡ failed (io_error would_block)
unfolding process
ban_fails = refl

echo_succeeds : run echo ≡ done (echoed 0)
unfolding process
echo_succeeds = refl

process-IsProxied_example :
    (p : ProxyToUpstream) × (proxy upstream ≡ proxy p)
    × IsProxied no_alphanumeric no_env show_io p via (some "a:1") world ended
process-IsProxied_example =
    process-IsProxied no_alphanumeric no_env show_io (proxy upstream) via (some "a:1") world ended
      proxies

-- A byte is written at a time, and nothing is ever read but zeros.
abbrev slow_world : World ℕ
slow_world = record world {
  writes = replicate 24 (wrote 1);
  reads = replicate 16384 (got (0 ∷ []));
}

slow_world-Answers : Answers no_alphanumeric no_env show_io via (some "a:1") slow_world
unfolding build_request as_bytes
slow_world-Answers = record {
  copied = λ e. cc;
  writes = omega arith;
  reads = omega arith;
  events = refl;
}

process_ends_example :
    (process no_alphanumeric no_env show_io (proxy upstream) via (some "a:1") slow_world).1
    ≢ waiting
process_ends_example =
    process_ends no_alphanumeric no_env show_io (proxy upstream) via (some "a:1") slow_world
      slow_world-Answers

abbrev first_visit : Visit ℕ
first_visit = record { via = via; target = some "a:1"; world = world }

-- Thirty seconds later the resolver is down.
abbrev second_visit : Visit ℕ
second_visit = record {
  via = via;
  target = some "a:1";
  world = record world {
    outside = record {
      now = seconds 30;
      answered = seconds 31;
      lookup = io_err would_block;
      dial = dial;
      lag = 0;
    };
  };
}

process-visited-IsDialledRecently_example : IsDialledRecently "tcp" (first_visit ∷ []) second_visit
unfolding process proxy_connection connect_upstream dial_resolved timeout_at connected resolved_at
    resolve is_resolved is_valid store select_family filter_addresses mode_of http_connect
    build_request write_loop read_loop finish_read has_header_end parse_connect_status check_status
    as_bytes relay relay_step relay_round is_over result new_relay copy_step copy_round finish new
process-visited-IsDialledRecently_example =
    process-visited-IsDialledRecently no_alphanumeric no_env show_io "h:80" "tcp" (first_visit ∷ [])
      second_visit ended refl refl

abbrev set_env : String → Option String
set_env name = some "s"

abbrev via_header : ViaUpstream
via_header = record via { headers = ("X", "$_") ∷ [] }

abbrev header_world : World ℕ
header_world = record world { writes = wrote 20 ∷ wrote 10 ∷ [] }

abbrev ended_header : Proxied
ended_header = record ended { sent = codes "CONNECT a:1 HTTP/1.1\r\nX: s\r\n\r\n" }

process-read_sent_example :
    read_sent ended_header.sent ≡ some (codes "a:1", map field_of (("X", "s") ∷ []))
unfolding process proxy_connection connect_upstream dial_resolved timeout_at connected resolved_at
    resolve is_resolved is_valid store select_family filter_addresses mode_of http_connect
    build_request write_loop read_loop finish_read has_header_end parse_connect_status check_status
    as_bytes relay relay_step relay_round is_over result new_relay copy_step copy_round finish
    resolve_header_value
process-read_sent_example =
    process-read_sent no_alphanumeric set_env show_io (proxy upstream) via_header "a:1" header_world
      ended_header (("X", "s") ∷ []) ((λ e. cc), ((λ e. cc), tt)) (ground arith) (ground arith) refl
      (ground arith) refl

-- The proxy goes away in the middle of the header.
abbrev closing_world : World ℕ
closing_world = record world { reads = got (codes "HTTP/1.1 ") ∷ got [] ∷ [] }

process-IsFailure_example :
    IsFailure no_alphanumeric no_env show_io via closing_world
      (proxy upstream)
      (some "a:1")
      closed_early
unfolding process proxy_connection connect_upstream dial_resolved timeout_at connected resolved_at
    resolve is_resolved is_valid store select_family filter_addresses mode_of http_connect
    build_request write_loop read_loop has_header_end as_bytes
process-IsFailure_example =
    process-IsFailure no_alphanumeric no_env show_io (proxy upstream) via (some "a:1") closing_world
      closed_early refl
