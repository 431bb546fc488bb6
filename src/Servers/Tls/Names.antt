-- ===== src/Servers/Tls/Names.antt =====
-- servers/protocol/tls.rs, `get_sni`, for a ClientHello with one server name extension.
use tls_proxy_tunnel.Base.{
  ℕ, ◌≡◌, refl, sym, ◌∙◌, Option, some, List, [], ◌∷◌, ◌++◌, String, map, All,
}
use mathlib.Core.List.{append_assoc, append-nil}
use tls_proxy_tunnel.Utf8.{Bytes, as_bytes}
use tls_proxy_tunnel.Utf8.RoundTrip.{from_utf8-as_bytes}
use tls_proxy_tunnel.Servers.Tls.{
  client_hello, TlsExtension, sni, other_extension, TlsParser, push_names, push_extensions,
  push_hello, push_messages, or_empty, get_sni,
}

-- The entry that a client writes for a host name: type 0 and the name's bytes.
abbrev pub host_entry : String → ℕ × Bytes
host_entry name = (0, as_bytes name)

push_names-host_entry :
    (names snis : List String) → push_names (map host_entry names) snis ≡ snis ++ names
unfolding push_names
push_names-host_entry [] snis = sym (append-nil snis)
push_names-host_entry (n ∷ names) snis =
    rw (from_utf8-as_bytes n, push_names)
      (push_names-host_entry names (snis ++ n ∷ []) ∙ append_assoc snis (n ∷ []) names)

-- An extension that is no server name.
abbrev pub IsOther : TlsExtension → Type 0
IsOther x = x ≡ other_extension

push_others :
    (xs ys : List TlsExtension) (snis : List String)
    → All IsOther xs
    → push_extensions (xs ++ ys) snis ≡ push_extensions ys snis
unfolding push_extensions
push_others [] ys snis h = refl
push_others (x ∷ xs) ys snis h = rw h.0 (push_others xs ys snis h.1)

push_only_others :
    (xs : List TlsExtension) (snis : List String) → All IsOther xs → push_extensions xs snis ≡ snis
unfolding push_extensions
push_only_others [] snis h = refl
push_only_others (x ∷ xs) snis h = rw h.0 (push_only_others xs snis h.1)

-- The shape of a ClientHello record for the parser: one ClientHello, whose extensions are some
-- others, the server name extension with these names, and some others.
pub record IsHello (parser : TlsParser) (buf : Bytes) (names : List String) : Type 0 where
  pub header : parser.Header
  pub body : Bytes
  pub ext : Option Bytes
  pub before : List TlsExtension
  pub behind : List TlsExtension
  pub raw : parser.parse_tls_raw_record buf ≡ some (header, body)
  pub message : parser.parse_tls_record_with_header body header ≡ some (client_hello ext ∷ [])
  pub extensions :
      parser.parse_tls_extensions (or_empty ext)
      ≡ some (before ++ sni (map host_entry names) ∷ behind)
  pub others_before : All IsOther before
  pub others_behind : All IsOther behind

-- From a record that the parser reads as one ClientHello with one server name extension, which
-- holds the UTF-8 bytes of some names, `get_sni` gives exactly these names in order.
pub get_sni-IsHello :
    (parser : TlsParser) (buf : Bytes) (names : List String)
    → IsHello parser buf names
    → get_sni parser buf ≡ names
unfolding get_sni
get_sni-IsHello parser buf names h =
    rw (h.raw, get_sni)
      (rw (h.message, get_sni)
        (rw (h.extensions, push_messages, push_hello)
          (push_others h.before _ [] h.others_before
            ∙ push_only_others h.behind (push_names (map host_entry names) []) h.others_behind
            ∙ push_names-host_entry names [])))
