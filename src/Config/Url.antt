-- ===== src/Config/Url.antt =====
-- config/loader.rs: an upstream from its URL. The `url` crate is the parameter `parse`.
pub mod ReadBack
use Prim.Native.String
use tls_proxy_tunnel.Base.{
  ℕ, ◌≡◌, true, Option, some, List, [], ◌∷◌, String, arith, show, is_one_of, if◌then◌else◌, inl,
  inr, Option-cases,
}
use tls_proxy_tunnel.Config.Error.{Result, ok, err, custom, ◌>>=◌, or_fail}
use tls_proxy_tunnel.Upstreams.Types
use tls_proxy_tunnel.Upstreams.Types.{ProxyToUpstream}

-- The three accessors that the program calls.
pub record Url : Type 0 where
  pub scheme : String
  pub host_str : Option String
  pub port_or_known_default : Option ℕ

abbrev pub invalid_url : String → String
invalid_url value = String.◌++◌ "Invalid upstream url " value

abbrev pub invalid_scheme : String → String
invalid_scheme value = String.◌++◌ "Invalid upstream scheme " value

-- `format!("{}:{}", host, port)`
abbrev pub host_port : String → ℕ → String
host_port host port = String.◌++◌ host (String.◌++◌ ":" (show port))

abbrev pub schemes : List String
schemes = "tcp" ∷ "tcp4" ∷ "tcp6" ∷ []

unfoldable pub with_scheme : String → String → String → ℕ → Result ProxyToUpstream
unfolding Types.new
with_scheme value scheme host port =
    if is_one_of scheme schemes
    then ok (Types.new (host_port host port) scheme)
    else err (custom (invalid_scheme value))

module _ (parse : String → Option Url) where
  unfoldable pub try_from : String → Result ProxyToUpstream
  unfolding with_scheme
  try_from value = do
    url ← or_fail (parse value) (invalid_url value)
    host ← or_fail url.host_str (invalid_url value)
    port ← or_fail url.port_or_known_default (invalid_url value)
    with_scheme value url.scheme host port

  -- An accepted upstream URL has a host, a port and one of the schemes `tcp`, `tcp4` and `tcp6`;
  -- the upstream is that of `host:port` with the scheme for its protocol.
  pub try_from_sound :
      (value : String) (p : ProxyToUpstream)
      → try_from value ≡ ok p
      → (url : Url) × (host : String) × (port : ℕ) × (parse value ≡ some url)
        × (url.host_str ≡ some host)
        × (url.port_or_known_default ≡ some port)
        × (is_one_of p.protocol schemes ≡ true)
        × (p ≡ Types.new (host_port host port) url.scheme)
  unfolding try_from
  try_from_sound value p h = elim (Option-cases (parse value)) [
    | inl e ↦ ground arith
    | inr (url, e₁) ↦ elim (Option-cases url.host_str) [
      | inl e ↦ ground arith
      | inr (host, e₂) ↦ elim (Option-cases url.port_or_known_default) [
        | inl e ↦ ground arith
        | inr (port, e₃) ↦ (url, host, port, e₁, e₂, e₃, ground arith, ground arith)
      ]
    ]
  ]
