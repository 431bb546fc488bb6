-- ===== src/Config/Url/ReadBack.antt =====
-- config/loader.rs, `try_from`: the address of an upstream, as the standard library's
-- `ToSocketAddrs` takes a text apart before the lookup, at its last colon.
use Prim.Native.String
use tls_proxy_tunnel.Base.{
  ℕ, ◌^◌, ◌<◌, ◌≡◌, refl, sym, ap, ◌∙◌, true, false, Option, none, some, List, [], ◌∷◌, ◌++◌,
  String, arith, show, is_one_of, ◌==◌, if◌then◌else◌, All,
}
use tls_proxy_tunnel.Base.Texts.{codes, codes-append, IsDigit, show-IsPrinted}
use tls_proxy_tunnel.Config.Error.{ok}
use tls_proxy_tunnel.Upstreams.Types
use tls_proxy_tunnel.Upstreams.Types.{ProxyToUpstream}
use tls_proxy_tunnel.Upstreams.Status.{Parsed, number, not_number, parse_u16}
use tls_proxy_tunnel.Upstreams.Status.Codes.{parse_u16-digits}
use tls_proxy_tunnel.Config.Url.{Url, host_port, schemes, try_from, try_from_sound}

abbrev prepend : ℕ → Option (List ℕ × List ℕ) → Option (List ℕ × List ℕ)
prepend c none = none
prepend c (some (front, back)) = some (c ∷ front, back)

-- `rsplit_once(':')`
abbrev pub rsplit_colon : List ℕ → Option (List ℕ × List ℕ)
rsplit_colon [] = none
rsplit_colon (c ∷ cs) = elim (rsplit_colon cs) [
  | some parts ↦ prepend c (some parts)
  | none ↦ if c == b':' then some ([], cs) else none
]

abbrev pub with_port : List ℕ → Parsed → Option (List ℕ × ℕ)
with_port host (number port) = some (host, port)
with_port host (not_number text) = none

abbrev pub read_port : Option (List ℕ × List ℕ) → Option (List ℕ × ℕ)
read_port none = none
read_port (some (host, port)) = with_port host (parse_u16 port)

-- The host and the port that are looked up.
abbrev pub lookup_target : List ℕ → Option (List ℕ × ℕ)
lookup_target cs = read_port (rsplit_colon cs)

rsplit_colon-digits : (ds : List ℕ) → All IsDigit ds → rsplit_colon ds ≡ none
rsplit_colon-digits [] h = refl
rsplit_colon-digits (d ∷ ds) h =
    let plain : (d == b':') ≡ false = ground arith in
    rw (rsplit_colon-digits ds h.1) (rw (plain) refl)

-- What follows the last colon has none; what stands in front may have some.
rsplit_colon_last :
    (host ds : List ℕ) → All IsDigit ds → rsplit_colon (host ++ b':' ∷ ds) ≡ some (host, ds)
rsplit_colon_last [] ds h = rw (rsplit_colon-digits ds h) refl
rsplit_colon_last (c ∷ host) ds h = rw (rsplit_colon_last host ds h) refl

lookup_target-host_port :
    (host : String) (port : ℕ)
    → port < 2 ^ 16
    → lookup_target (codes (host_port host port)) ≡ some (codes host, port)
lookup_target-host_port host port fits =
    let p = show-IsPrinted port in
    let text : codes (host_port host port) ≡ codes host ++ b':' ∷ codes (show port) =
      codes-append host (String.◌++◌ ":" (show port))
      ∙ ap (λ cs. codes host ++ cs) (codes-append ":" (show port)) in
    let read : parse_u16 (codes (show port)) ≡ number port =
      parse_u16-digits (codes (show port)) p.some_digit p.digits (omega (arith, p.stands_for))
      ∙ ap number p.stands_for in
    ap (λ cs. read_port (rsplit_colon cs)) text
    ∙ ap read_port (rsplit_colon_last (codes host) (codes (show port)) p.digits)
    ∙ ap (with_port (codes host)) read

-- If the URL parser gives ports below 65536, an accepted upstream URL has a host, a port and one of
-- the schemes `tcp`, `tcp4` and `tcp6`, which is the upstream's protocol; and its address, taken
-- apart at its last colon as the lookup does, gives back this host and this port, also when the
-- host has colons.
pub lookup_target-try_from :
    (parse : String → Option Url) (text : String) (p : ProxyToUpstream)
    → ((any : String) (url : Url) (port : ℕ)
        → parse any ≡ some url
        → url.port_or_known_default ≡ some port
        → port < 2 ^ 16)
    → try_from parse text ≡ ok p
    → (url : Url) × (host : String) × (port : ℕ) × (parse text ≡ some url)
      × (url.host_str ≡ some host)
      × (url.port_or_known_default ≡ some port)
      × (lookup_target (codes p.addr) ≡ some (codes host, port))
      × (is_one_of p.protocol schemes ≡ true)
      × (p ≡ Types.new p.addr url.scheme)
unfolding Types.new
lookup_target-try_from parse text p u16 h =
    let (url, host, port, e, e₁, e₂, known, same) = try_from_sound parse text p h in
    let addr : p.addr ≡ host_port host port = ap (λ (q : ProxyToUpstream). q.addr) same in
    (
      url,
      host,
      port,
      e,
      e₁,
      e₂,
      ap (λ a. lookup_target (codes a)) addr
          ∙ lookup_target-host_port host port (u16 text url port e e₂),
      known,
      same ∙ ap (λ a. Types.new a url.scheme) (sym addr),
    )
