-- ===== src/Servers/Tls.antt =====
-- servers/protocol/tls.rs: the server names in a ClientHello. The `tls_parser` crate is the record
-- of its three functions; `none` is a parse error.
pub mod Names
mod Examples
use tls_proxy_tunnel.Base.{ℕ, Option, none, some, List, [], ◌∷◌, ◌++◌, String, ◌≡◌}
use tls_proxy_tunnel.Utf8.{Bytes, from_utf8}

-- The variants that the program matches on; the others are one.
pub data TlsMessage : Type 0 where
  client_hello : Option Bytes → TlsMessage
  other_message : TlsMessage

pub data TlsExtension : Type 0 where
  sni : List (ℕ × Bytes) → TlsExtension
  other_extension : TlsExtension

pub record TlsParser : Type 1 where
  pub Header : Type 0
  pub parse_tls_raw_record : Bytes → Option (Header × Bytes)
  pub parse_tls_record_with_header : Bytes → Header → Option (List TlsMessage)
  pub parse_tls_extensions : Bytes → Option (List TlsExtension)

-- `for &(t, sni) in v`: a name that is not UTF-8 is skipped.
push_names : List (ℕ × Bytes) → List String → List String
push_names [] snis = snis
push_names ((t, name) ∷ rest) snis = elim (from_utf8 name) [
  | some s ↦ push_names rest (snis ++ s ∷ [])
  | none ↦ push_names rest snis
]

push_extensions : List TlsExtension → List String → List String
unfolding push_names
push_extensions [] snis = snis
push_extensions (sni v ∷ rest) snis = push_extensions rest (push_names v snis)
push_extensions (other_extension ∷ rest) snis = push_extensions rest snis

abbrev or_empty : Option Bytes → Bytes
or_empty none = []
or_empty (some b) = b

module _ (parser : TlsParser) where
  open parser use {parse_tls_raw_record, parse_tls_record_with_header, parse_tls_extensions}

  push_hello : Option Bytes → List String → List String
  unfolding push_extensions
  push_hello ext snis = elim (parse_tls_extensions (or_empty ext)) [
    | none ↦ snis
    | some extensions ↦ push_extensions extensions snis
  ]

  push_messages : List TlsMessage → List String → List String
  unfolding push_hello
  push_messages [] snis = snis
  push_messages (client_hello ext ∷ rest) snis = push_messages rest (push_hello ext snis)
  push_messages (other_message ∷ rest) snis = push_messages rest snis

  unfoldable pub get_sni : Bytes → List String
  unfolding push_messages
  get_sni buf = elim (parse_tls_raw_record buf) [
    | none ↦ []
    | some (hdr, body) ↦ elim (parse_tls_record_with_header body hdr) [
      | none ↦ []
      | some messages ↦ push_messages messages []
    ]
  ]
