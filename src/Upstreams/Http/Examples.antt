-- ===== src/Upstreams/Http/Examples.antt =====
-- Tests of `http_connect`, and its theorems at concrete exchanges.
use tls_proxy_tunnel.Base.{
  ◌≡◌, ◌≢◌, refl, Bool, false, Option, none, some, map, List, [], ◌∷◌, ◌++◌, Char, String, arith,
  replicate,
}
use tls_proxy_tunnel.Base.Texts.{codes}
use tls_proxy_tunnel.Utf8.{as_bytes}
use tls_proxy_tunnel.Upstreams.Failure.{ok}
use tls_proxy_tunnel.Upstreams.Status.{parse_connect_status, check_status}
use tls_proxy_tunnel.Upstreams.Http.{
  build_request, WriteEvent, wrote, write_blocked, done, failed, waiting, ReadEvent, got,
  read_blocked, has_header_end, closed_early, header_too_large, finish_read, read_loop, write_loop,
  Connected, http_connect,
}
use tls_proxy_tunnel.Upstreams.Http.Reading.{
  read_loop_fragmented, read_loop_too_large, read_loop_closed,
}
use tls_proxy_tunnel.Upstreams.Header.{resolve_header_value}
use tls_proxy_tunnel.Upstreams.Http.Request.{read_request}
use tls_proxy_tunnel.Upstreams.Http.Request.Written.{field_of, read_request-build_request}
use tls_proxy_tunnel.Base.Dict.{Dict}
use tls_proxy_tunnel.Upstreams.Http.Ends.{http_connect_ends}
use tls_proxy_tunnel.Upstreams.Http.Outcome.{
  IsTunnel, http_connect-IsTunnel, http_connect_sends_request,
}

abbrev no_alphanumeric : Char → Bool
no_alphanumeric c = false

abbrev no_env : String → Option String
no_env name = none

abbrev two_reads : List ReadEvent
two_reads =
    got (codes "HTTP/1.1 20")
    ∷ read_blocked
    ∷ got (codes "0 OK\r\n\r\nEARLY")
    ∷ got (codes "late")
    ∷ []

abbrev two_pieces : List ReadEvent
two_pieces = got (codes "HTTP/1.1 20") ∷ read_blocked ∷ []

abbrev tunnel : Connected
tunnel = record {
  sent = codes "CONNECT a:1 HTTP/1.1\r\n\r\n";
  response = record {
    buffer = codes "HTTP/1.1 200 OK\r\n\r\nEARLY";
    status = 200;
    left = got (codes "late") ∷ [];
  };
}

abbrev two_writes : List WriteEvent
two_writes = wrote 10 ∷ write_blocked ∷ wrote 14 ∷ []

request_text : build_request no_alphanumeric no_env "a:1" [] ≡ ok "CONNECT a:1 HTTP/1.1\r\n\r\n"
unfolding build_request
request_text = refl

connects : http_connect no_alphanumeric no_env "a:1" [] two_writes two_reads ≡ done tunnel
unfolding http_connect read_loop write_loop build_request has_header_end parse_connect_status
    as_bytes check_status
connects = refl

-- `EARLY` came with the header and is not left for the relay.
http_connect-IsTunnel_example :
    IsTunnel (build_request no_alphanumeric no_env "a:1" []) two_reads tunnel
http_connect-IsTunnel_example =
    http_connect-IsTunnel no_alphanumeric no_env "a:1" [] two_writes two_reads tunnel connects

sends_whole_request : tunnel.sent ≡ as_bytes "CONNECT a:1 HTTP/1.1\r\n\r\n"
sends_whole_request =
    http_connect_sends_request no_alphanumeric no_env "a:1" [] two_writes two_reads tunnel _
      ((λ e. cc), ((λ e. cc), ((λ e. cc), tt))) request_text connects

read_loop_fragmented_example :
    read_loop [] (two_pieces ++ got (codes "0 OK\r\n\r\n") ∷ [])
    ≡ finish_read
        (codes "HTTP/1.1 200 OK\r\n\r\n")
        []
        (parse_connect_status (codes "HTTP/1.1 200 OK\r\n\r\n"))
unfolding has_header_end
read_loop_fragmented_example =
    read_loop_fragmented two_pieces (codes "0 OK\r\n\r\n") [] ((λ e. cc), (tt, tt)) (λ e. cc) refl
      (omega arith) refl

read_loop_too_large_example :
    read_loop [] (got (65 ∷ []) ∷ got (replicate 16383 66) ∷ []) ≡ failed header_too_large
unfolding has_header_end
read_loop_too_large_example =
    read_loop_too_large (got (65 ∷ []) ∷ []) (replicate 16383 66) [] ((λ e. cc), tt) (λ e. cc)
      (omega arith) (omega arith) refl

closes_in_pieces : read_loop [] (two_pieces ++ got [] ∷ []) ≡ failed closed_early
unfolding has_header_end
closes_in_pieces = read_loop_closed two_pieces [] ((λ e. cc), (tt, tt)) refl (omega arith)

connect_ends :
    http_connect no_alphanumeric no_env "a:1" []
      (replicate 24 (wrote 1))
      (replicate 16384 (got (65 ∷ [])))
    ≢ waiting
unfolding build_request as_bytes
connect_ends =
    http_connect_ends no_alphanumeric no_env "a:1" [] (replicate 24 (wrote 1))
      (replicate 16384 (got (65 ∷ []))) (omega arith) (omega arith)

abbrev token : String → Option String
token name = some "s3cret"

abbrev two_headers : Dict String
two_headers = ("Host", "a:1") ∷ ("Proxy-Authorization", "Basic $") ∷ []

read_request-build_request_example :
    (text : String) × (build_request no_alphanumeric token "a:1" two_headers ≡ ok text)
    × (read_request (codes text) ≡ some (codes "a:1", map field_of two_headers))
unfolding resolve_header_value
read_request-build_request_example =
    read_request-build_request no_alphanumeric token "a:1" two_headers two_headers (ground arith)
      (ground arith) refl (ground arith)

reads_fields :
    read_request (codes "CONNECT a:1 HTTP/1.1\r\nA: b\r\nC: d\r\n\r\n")
    ≡ some (codes "a:1", (codes "A", codes "b") ∷ (codes "C", codes "d") ∷ [])
reads_fields = refl
