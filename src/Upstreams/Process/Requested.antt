-- ===== src/Upstreams/Process/Requested.antt =====
-- upstreams/mod.rs, `Upstream::process` with upstreams/proxy_to_upstream/http.rs: what the server at
-- the other end reads as the request.
use tls_proxy_tunnel.Base.{ℕ, ◌≡◌, ◌≢◌, ap, ◌∙◌, Bool, Option, some, List, map, Char, String, All}
use tls_proxy_tunnel.Base.Dict.{Dict}
use tls_proxy_tunnel.Base.Options.{◌>>=◌}
use tls_proxy_tunnel.Base.Texts.{codes}
use tls_proxy_tunnel.Utf8.{Bytes, from_utf8}
use tls_proxy_tunnel.Utf8.RoundTrip.{from_utf8-as_bytes}
use tls_proxy_tunnel.Net.{IoError}
use tls_proxy_tunnel.Config.Types.{ViaUpstream}
use tls_proxy_tunnel.Upstreams.Types.{Upstream}
use tls_proxy_tunnel.Upstreams.Failure.{ok}
use tls_proxy_tunnel.Upstreams.Http.{wrote, done}
use tls_proxy_tunnel.Upstreams.Http.Outcome.{http_connect_sends_request}
use tls_proxy_tunnel.Upstreams.Http.Request.{Fields, Lacks, read_request}
use tls_proxy_tunnel.Upstreams.Http.Request.Written.{
  IsClean, field_of, resolve_headers, read_request-build_request,
}
use tls_proxy_tunnel.Upstreams.Process.{World, Proxied, proxied, process}
use tls_proxy_tunnel.Upstreams.Process.Tunnelled.{IsHandshake, tunnel, process-IsProxied}

-- The target and the fields of a request in UTF-8.
abbrev pub read_sent : Bytes → Option (List ℕ × Fields)
read_sent bs = from_utf8 bs >>= λ text. read_request (codes text)

module _ {Stream : Type 0} (is_alphanumeric : Char → Bool) (env : String → Option String)
    (show_io : IoError → String) where
  handshake_sends :
      (via : ViaUpstream) (w : World Stream) (d : Proxied) (target : String) (fields : Dict String)
      → All (λ e. e ≢ wrote 0) w.writes
      → Lacks 32 (codes target)
      → Lacks 13 (codes target)
      → resolve_headers is_alphanumeric env via.headers ≡ ok fields
      → All IsClean fields
      → IsHandshake is_alphanumeric env show_io via w d (some target)
      → read_sent d.sent ≡ some (codes target, map field_of fields)
  handshake_sends via w d target fields writes blank cr resolved clean (tunnel c e i same) =
      let (text, built, read) =
        read_request-build_request is_alphanumeric env target via.headers fields blank cr resolved
          clean in
      let sent =
        http_connect_sends_request is_alphanumeric env target via.headers w.writes w.reads c text
          writes built e in
      ap read_sent (same ∙ sent)
      ∙ ap (λ o. o >>= λ t. read_request (codes t)) (from_utf8-as_bytes text)
      ∙ read

  -- If the processing of a connection with a CONNECT target ends as a proxied connection,
  -- `try_write` never answered 0, the target has neither a blank nor a CR, and the headers of the
  -- settings resolve to fields whose names have neither a colon nor a CR and whose values have no
  -- CR, then all that was sent before the relay is UTF-8, from which a reader of HTTP requests gets
  -- exactly the target and the resolved fields, in order.
  pub process-read_sent :
      (u : Upstream) (via : ViaUpstream) (target : String) (w : World Stream) (d : Proxied)
      (fields : Dict String)
      → All (λ e. e ≢ wrote 0) w.writes
      → Lacks 32 (codes target)
      → Lacks 13 (codes target)
      → resolve_headers is_alphanumeric env via.headers ≡ ok fields
      → All IsClean fields
      → (process is_alphanumeric env show_io u via (some target) w).1 ≡ done (proxied d)
      → read_sent d.sent ≡ some (codes target, map field_of fields)
  process-read_sent u via target w d fields writes blank cr resolved clean h =
      let (p, e, i) = process-IsProxied is_alphanumeric env show_io u via (some target) w d h in
      handshake_sends via w d target fields writes blank cr resolved clean i.handshake
