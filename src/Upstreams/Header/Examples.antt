-- ===== src/Upstreams/Header/Examples.antt =====
-- Tests of the substitution, and its theorem at concrete values.

use tls_proxy_tunnel.Base.{
  ◌≡◌, refl, Bool, ◌&&◌, ◌||◌, Option, none, some, Char, code, String, leb, str_eq, if◌then◌else◌,
  arith,
}
use tls_proxy_tunnel.Upstreams.Failure.{ok, err, var_error}
use tls_proxy_tunnel.Upstreams.Header.{resolve_header_value}
use tls_proxy_tunnel.Upstreams.Header.Resolved.{resolve_header_value_lem}

abbrev ascii_alphanumeric : Char → Bool
ascii_alphanumeric c =
    let n = code c in
    (leb b'0' n && leb n b'9') || ((leb b'A' n && leb n b'Z') || (leb b'a' n && leb n b'z'))

abbrev one_variable : String → Option String
one_variable name = if str_eq name "ENCODED_PW" then some "c2VjcmV0" else none

resolves_password :
    resolve_header_value ascii_alphanumeric one_variable "Basic $ENCODED_PW" ≡ ok "Basic c2VjcmV0"
unfolding resolve_header_value
resolves_password = refl

unset_variable :
    resolve_header_value ascii_alphanumeric one_variable "$NOPE" ≡ err (var_error "NOPE")
unfolding resolve_header_value
unset_variable = refl

-- The form that container-files/etc/tpt/config.yaml uses is not replaced.
resolve_header_value_lem_example :
    resolve_header_value ascii_alphanumeric one_variable "basic ${ENCODED_PW}"
    ≡ ok "basic ${ENCODED_PW}"
resolve_header_value_lem_example =
    resolve_header_value_lem ascii_alphanumeric one_variable "basic " "" "{ENCODED_PW}"
      (ground arith) tt refl
