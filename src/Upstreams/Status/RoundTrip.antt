-- ===== src/Upstreams/Status/RoundTrip.antt =====
-- upstreams/proxy_to_upstream/http.rs, `parse_connect_status`, on a status that was printed.
use tls_proxy_tunnel.Base.{
  ℕ, ◌^◌, ◌<◌, ◌≡◌, ◌≢◌, ap, ◌∙◌, true, List, [], ◌∷◌, ◌++◌, show, All, All-weaken, arith,
}
use tls_proxy_tunnel.Base.Texts.{codes, IsDigit, show-IsPrinted}
use tls_proxy_tunnel.Utf8.{Bytes, as_bytes}
use tls_proxy_tunnel.Utf8.RoundTrip.{as_bytes_ascii}
use tls_proxy_tunnel.Upstreams.Failure.{ok}
use tls_proxy_tunnel.Upstreams.Status.{is_whitespace, parse_connect_status}
use tls_proxy_tunnel.Upstreams.Status.Codes.{IsWordChar, parse_connect_status-IsResponse}

as_bytes-show : (n : ℕ) → as_bytes (show n) ≡ codes (show n)
as_bytes-show n = as_bytes_ascii (show n) (
    All-weaken IsDigit (λ c. c < 0x80) (λ c h. omega arith) (codes (show n))
      (show-IsPrinted n).digits)

-- The status read from a response that begins with an ASCII word, one space, a printed number below
-- 65536 and an ASCII blank is this number, whatever bytes follow.
pub parse_connect_status-show :
    (version : List ℕ) (status sep : ℕ) (rest : Bytes)
    → version ≢ []
    → All IsWordChar version
    → status < 2 ^ 16
    → sep < 0x80
    → is_whitespace sep ≡ true
    → parse_connect_status (version ++ 32 ∷ (as_bytes (show status) ++ sep ∷ rest)) ≡ ok status
parse_connect_status-show version status sep rest some_version version_chars fits ascii blank =
    let p = show-IsPrinted status in
    ap (λ ds. parse_connect_status (version ++ 32 ∷ (ds ++ sep ∷ rest))) (as_bytes-show status)
    ∙ parse_connect_status-IsResponse version (codes (show status)) sep rest (record {
      has_version = some_version;
      version_chars = version_chars;
      has_digits = p.some_digit;
      digit_chars = p.digits;
      fits = omega (arith, p.stands_for);
      sep_ascii = ascii;
      sep_blank = blank;
    })
    ∙ ap ok p.stands_for
