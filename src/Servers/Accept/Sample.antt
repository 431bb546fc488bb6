-- ===== src/Servers/Accept/Sample.antt =====
-- A connection, its surroundings and a TLS parser, for the tests of `accept`.
use tls_proxy_tunnel.Base.{ℕ, Bool, true, false, Option, none, some, List, [], ◌∷◌, Char, String}
use tls_proxy_tunnel.Net.{SocketAddr, v4, IoError, IoResult, io_ok}
use tls_proxy_tunnel.Utf8.{Bytes}
use tls_proxy_tunnel.Upstreams.Process.{World}
use tls_proxy_tunnel.Servers.Tls.{TlsMessage, client_hello, TlsExtension, sni, TlsParser}
use tls_proxy_tunnel.Servers.Accept.{Inbound}

-- A parser that finds the name `x.org` in everything.
abbrev pub find_record : Bytes → Option (Unit {0} × Bytes)
find_record buf = some (tt, buf)

abbrev pub find_hello : Bytes → Unit {0} → Option (List TlsMessage)
find_hello body hdr = some (client_hello none ∷ [])

abbrev pub find_names : Bytes → Option (List TlsExtension)
find_names ext = some (sni ((0, 120 ∷ 46 ∷ 111 ∷ 114 ∷ 103 ∷ []) ∷ []) ∷ [])

abbrev pub parser : TlsParser
parser = record {
  Header = Unit {0};
  parse_tls_raw_record = find_record;
  parse_tls_record_with_header = find_hello;
  parse_tls_extensions = find_names;
}

abbrev pub no_alphanumeric : Char → Bool
no_alphanumeric c = false

abbrev pub no_env : String → Option String
no_env name = none

abbrev pub show_io : IoError → String
show_io e = "an error"

abbrev pub no_stream : List SocketAddr → Option (ℕ × IoResult ℕ)
no_stream addresses = none

abbrev pub world : World ℕ
world = record {
  outside = record { now = 0; answered = 1; lookup = io_ok []; dial = no_stream; lag = 0 };
  outbound_nodelay = io_ok tt;
  inbound_nodelay = io_ok tt;
  writes = [];
  reads = [];
  events = [];
  shutdown = io_ok tt;
  copied = some (io_ok 12);
}

abbrev pub arrives : Inbound
arrives = record { logs_info = true; peer_addr = io_ok (v4 1 2); peek = io_ok [] }
