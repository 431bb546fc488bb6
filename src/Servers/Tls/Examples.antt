-- ===== src/Servers/Tls/Examples.antt =====
-- Tests of the walk through the messages, with a parser that knows two buffers.
use tls_proxy_tunnel.Base.{◌≡◌, refl, Option, none, some, List, [], ◌∷◌, map, String}
use tls_proxy_tunnel.Utf8.{Bytes}
use tls_proxy_tunnel.Servers.Tls.{
  TlsMessage, client_hello, TlsExtension, sni, other_extension, TlsParser, get_sni,
}
use tls_proxy_tunnel.Servers.Tls.Names.{host_entry, get_sni-IsHello}

abbrev hello_names : List String
hello_names = "www.lirui.tech" ∷ []

abbrev toy_record : Bytes → Option (Unit {0} × Bytes)
toy_record [] = none
toy_record (b ∷ bs) = some (tt, bs)

abbrev toy_messages : Bytes → Unit {0} → Option (List TlsMessage)
toy_messages [] h = none
toy_messages (b ∷ bs) h = some (client_hello (some bs) ∷ [])

abbrev toy_extensions : Bytes → Option (List TlsExtension)
toy_extensions [] = none
toy_extensions (b ∷ bs) =
    some (other_extension ∷ sni (map host_entry hello_names) ∷ other_extension ∷ [])

abbrev toy_parser : TlsParser
toy_parser = record {
  Header = Unit {0};
  parse_tls_raw_record = toy_record;
  parse_tls_record_with_header = toy_messages;
  parse_tls_extensions = toy_extensions;
}

empty_buffer_has_no_sni : get_sni toy_parser [] ≡ []
unfolding get_sni
empty_buffer_has_no_sni = refl

finds_the_name : get_sni toy_parser (22 ∷ 1 ∷ 0 ∷ []) ≡ "www.lirui.tech" ∷ []
finds_the_name = get_sni-IsHello toy_parser (22 ∷ 1 ∷ 0 ∷ []) hello_names (record {
  header = tt;
  body = 1 ∷ 0 ∷ [];
  ext = some (0 ∷ []);
  before = other_extension ∷ [];
  behind = other_extension ∷ [];
  raw = refl;
  message = refl;
  extensions = refl;
  others_before = (refl, tt);
  others_behind = (refl, tt);
})
