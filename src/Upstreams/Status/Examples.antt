-- ===== src/Upstreams/Status/Examples.antt =====
-- Tests of the status line, and its theorem at a concrete response.
use tls_proxy_tunnel.Base.{◌≡◌, refl, [], ◌∷◌, ◌++◌, arith, show}
use tls_proxy_tunnel.Base.Texts.{codes}
use tls_proxy_tunnel.Utf8.{as_bytes}
use tls_proxy_tunnel.Upstreams.Failure.{ok, err, proxy_error}
use tls_proxy_tunnel.Upstreams.Status.{
  is_whitespace, parse_connect_status, no_status, bad_status, too_large,
}
use tls_proxy_tunnel.Upstreams.Status.RoundTrip.{parse_connect_status-show}

established : parse_connect_status (codes "HTTP/1.1 200 Connection established\r\n\r\n") ≡ ok 200
unfolding parse_connect_status
established = refl

only_version : parse_connect_status (codes "HTTP/1.1\r\n\r\n") ≡ err (proxy_error no_status)
unfolding parse_connect_status
only_version = refl

too_many_digits :
    parse_connect_status (codes "HTTP/1.1 65536 x\r\n\r\n")
    ≡ err (proxy_error (bad_status (codes "65536") too_large))
unfolding parse_connect_status
too_many_digits = refl

parse_connect_status-show_example :
    parse_connect_status (codes "HTTP/1.1" ++ 32 ∷ (as_bytes (show 407) ++ 13 ∷ (0xff ∷ [])))
    ≡ ok 407
unfolding is_whitespace
parse_connect_status-show_example =
    parse_connect_status-show (codes "HTTP/1.1") 407 13 (0xff ∷ []) (λ e. cc) (omega arith)
      (omega arith) (omega arith) refl
