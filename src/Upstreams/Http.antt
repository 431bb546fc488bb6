-- ===== src/Upstreams/Http.antt =====
-- upstreams/proxy_to_upstream/http.rs, `http_connect`: the request, the loop that writes it and the
-- loop that reads the response. What the socket answers is a list of events; a loop that has used
-- them up is still waiting.
pub mod Reading
pub mod Writing
pub mod Ended
pub mod Outcome
pub mod Unread
pub mod Refused
pub mod Ends
pub mod Request
mod Examples
use Prim.Native.String
use tls_proxy_tunnel.Base.{
  ℕ, zero, suc, ◌+◌, ◌≡◌, refl, Bool, true, false, ◌&&◌, ◌||◌, Option, none, some, List, [], ◌∷◌,
  ◌++◌, Char, String, ltb, leb, ◌==◌, if◌then◌else◌, length, take, drop,
}
use tls_proxy_tunnel.Base.Dict.{Dict}
use tls_proxy_tunnel.Net.{IoError}
use tls_proxy_tunnel.Utf8.{Bytes, as_bytes}
use tls_proxy_tunnel.Upstreams.Failure.{Failure, Result, ok, err, proxy_error, io_error, ◌>>=◌}
use tls_proxy_tunnel.Upstreams.Header.{resolve_header_value}
use tls_proxy_tunnel.Upstreams.Status.{parse_connect_status, check_status}

abbrev pub crlf : String
crlf = "\r\n"

module _ (is_alphanumeric : Char → Bool) (env : String → Option String) where
  push_headers : Dict String → String → Result String
  push_headers [] buf = ok buf
  push_headers ((name, value) ∷ rest) buf = do
    resolved ← resolve_header_value is_alphanumeric env value
    push_headers rest
        (String.◌++◌ buf (String.◌++◌ name (String.◌++◌ ": " (String.◌++◌ resolved crlf))))

  unfoldable pub build_request : String → Dict String → Result String
  unfolding push_headers
  build_request target headers = do
    buf ← push_headers headers (String.◌++◌ "CONNECT " (String.◌++◌ target " HTTP/1.1\r\n"))
    ok (String.◌++◌ buf crlf)

-- A round of the write loop: `writable` fails, or `try_write` answers.
pub data WriteEvent : Type 0 where
  wrote : ℕ → WriteEvent
  write_blocked : WriteEvent
  write_failed : IoError → WriteEvent
  not_writable : IoError → WriteEvent

-- Where a loop stands: it is over, it failed, or it waits.
pub data Progress {ℓ} (A : Type ℓ) : Type ℓ where
  done : A → Progress A
  failed : Failure → Progress A
  waiting : Progress A

-- The bytes that the socket took, and how the loop ended. `Ok(0)` ends it without an error.
unfoldable pub write_loop : Bytes → ℕ → List WriteEvent → Bytes × Progress (Unit {0})
write_loop bytes written [] =
    (take written bytes, if leb (length bytes) written then done tt else waiting)
write_loop bytes written (e ∷ es) = elim (leb (length bytes) written) [
  | true ↦ (take written bytes, done tt)
  | false ↦ elim e [
    | wrote n ↦ elim (n == 0) [
      | true ↦ (take written bytes, done tt)
      | false ↦ write_loop bytes (written + n) es
    ]
    | write_blocked ↦ write_loop bytes written es
    | write_failed x ↦ (take written bytes, failed (io_error x))
    | not_writable x ↦ (take written bytes, failed (io_error x))
  ]
]

-- A round of the read loop; `Ok(n)` brings the `n` bytes, for which the buffer has room, and no
-- bytes are the end of the stream.
pub data ReadEvent : Type 0 where
  got : Bytes → ReadEvent
  read_blocked : ReadEvent
  read_failed : IoError → ReadEvent
  not_readable : IoError → ReadEvent

abbrev pub buffer_size : ℕ
buffer_size = 16384

is_header_end : ℕ → ℕ → ℕ → ℕ → Bool
is_header_end a b c d = (a == 13 && b == 10) && (c == 13 && d == 10)

-- `windows(4).any(|w| w == b"\r\n\r\n")`
unfoldable pub has_header_end : Bytes → Bool
unfolding is_header_end
has_header_end [] = false
has_header_end (a ∷ []) = false
has_header_end (a ∷ b ∷ []) = false
has_header_end (a ∷ b ∷ c ∷ []) = false
has_header_end (a ∷ b ∷ c ∷ d ∷ rest) = is_header_end a b c d || has_header_end (b ∷ c ∷ d ∷ rest)

abbrev pub closed_early : Failure
closed_early = proxy_error "upstream proxy closed connection before sending CONNECT response"

abbrev pub header_too_large : Failure
header_too_large = proxy_error "CONNECT response header too large"

-- What was read, the status in it, and the events that are left for the relay.
pub record Response : Type 0 where
  pub buffer : Bytes
  pub status : ℕ
  pub left : List ReadEvent

unfoldable pub finish_read : Bytes → List ReadEvent → Result ℕ → Progress Response
finish_read buffer left (ok status) =
    done (record { buffer = buffer; status = status; left = left })
finish_read buffer left (err e) = failed e

unfoldable pub read_loop : Bytes → List ReadEvent → Progress Response
unfolding finish_read
read_loop buffer [] = waiting
read_loop buffer (got [] ∷ es) = failed closed_early
read_loop buffer (got (b ∷ bs) ∷ es) =
    let buffer' = buffer ++ b ∷ bs in
    elim (has_header_end buffer') [
      | true ↦ finish_read buffer' es (parse_connect_status buffer')
      | false ↦ elim (leb buffer_size (length buffer')) [
        | true ↦ failed header_too_large
        | false ↦ read_loop buffer' es
      ]
    ]
read_loop buffer (read_blocked ∷ es) = read_loop buffer es
read_loop buffer (read_failed x ∷ es) = failed (io_error x)
read_loop buffer (not_readable x ∷ es) = failed (io_error x)

-- What the upstream has been sent, and the reads that are left for the relay.
pub record Connected : Type 0 where
  pub sent : Bytes
  pub response : Response

after_status : Bytes → Response → Result (Unit {0}) → Progress Connected
after_status sent r (ok u) = done (record { sent = sent; response = r })
after_status sent r (err e) = failed e

after_read : Bytes → Progress Response → Progress Connected
unfolding after_status
after_read sent (done r) = after_status sent r (check_status r.status)
after_read sent (failed e) = failed e
after_read sent waiting = waiting

after_write : Bytes × Progress (Unit {0}) → List ReadEvent → Progress Connected
unfolding after_read read_loop
after_write (sent, done u) reads = after_read sent (read_loop [] reads)
after_write (sent, failed e) reads = failed e
after_write (sent, waiting) reads = waiting

send_request : Result String → List WriteEvent → List ReadEvent → Progress Connected
unfolding after_write write_loop
send_request (ok request) writes reads = after_write (write_loop (as_bytes request) 0 writes) reads
send_request (err e) writes reads = failed e

module _ (is_alphanumeric : Char → Bool) (env : String → Option String) where
  unfoldable pub http_connect :
      String → Dict String → List WriteEvent → List ReadEvent → Progress Connected
  unfolding build_request send_request
  http_connect target headers writes reads =
      send_request (build_request is_alphanumeric env target headers) writes reads
