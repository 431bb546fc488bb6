-- ===== src/Upstreams/Http/Ends.antt =====
-- upstreams/proxy_to_upstream/http.rs, `http_connect`: its loops end.
use tls_proxy_tunnel.Base.{
  ℕ, suc, ◌+◌, ◌≤◌, ◌<◌, ◌≢◌, refl, inl, inr, Bool, Option, List, [], ◌∷◌, ◌++◌, Char, String,
  arith, leb, length, length-append, Bool-cases,
}
use tls_proxy_tunnel.Base.Dict.{Dict}
use tls_proxy_tunnel.Utf8.{Bytes, as_bytes}
use tls_proxy_tunnel.Upstreams.Failure.{Result, ok, err}
use tls_proxy_tunnel.Upstreams.Status.{parse_connect_status}
use tls_proxy_tunnel.Upstreams.Http.{
  build_request, WriteEvent, wrote, write_blocked, write_failed, not_writable, Progress, done,
  failed, waiting, write_loop, ReadEvent, got, read_blocked, read_failed, not_readable, buffer_size,
  has_header_end, Response, finish_read, read_loop, after_status, after_read, after_write,
  send_request, http_connect,
}

-- The rounds in which the socket does something.
abbrev pub writes_done : List WriteEvent → ℕ
writes_done [] = 0
writes_done (write_blocked ∷ es) = writes_done es
writes_done (wrote n ∷ es) = suc (writes_done es)
writes_done (write_failed x ∷ es) = suc (writes_done es)
writes_done (not_writable x ∷ es) = suc (writes_done es)

abbrev pub reads_done : List ReadEvent → ℕ
reads_done [] = 0
reads_done (read_blocked ∷ es) = reads_done es
reads_done (got bs ∷ es) = suc (reads_done es)
reads_done (read_failed x ∷ es) = suc (reads_done es)
reads_done (not_readable x ∷ es) = suc (reads_done es)

-- Each round writes a byte, or ends the loop.
write_loop_ends :
    (bytes : Bytes) (written : ℕ) (es : List WriteEvent)
    → length bytes ≤ written + writes_done es
    → (write_loop bytes written es).1 ≢ waiting
unfolding write_loop
write_loop_ends bytes written [] h = ground arith
write_loop_ends bytes written (wrote n ∷ es) h =
    ground (arith, write_loop_ends bytes (written + n) es)
write_loop_ends bytes written (write_blocked ∷ es) h =
    ground (arith, write_loop_ends bytes written es)
write_loop_ends bytes written (write_failed x ∷ es) h = ground arith
write_loop_ends bytes written (not_writable x ∷ es) h = ground arith

finish_read-ne-waiting :
    (buffer : Bytes) (left : List ReadEvent) (r : Result ℕ) → finish_read buffer left r ≢ waiting
unfolding finish_read
finish_read-ne-waiting buffer left (ok status) h = cc
finish_read-ne-waiting buffer left (err e) h = cc

-- Each round brings a byte, or ends the loop, and the buffer has an end.
read_loop_ends :
    (buffer : Bytes) (es : List ReadEvent)
    → length buffer < buffer_size
    → buffer_size ≤ length buffer + reads_done es
    → read_loop buffer es ≢ waiting
unfolding read_loop
read_loop_ends buffer [] room h = absurd (omega arith)
read_loop_ends buffer (read_blocked ∷ es) room h = read_loop_ends buffer es room h
read_loop_ends buffer (read_failed x ∷ es) room h = λ e. cc
read_loop_ends buffer (not_readable x ∷ es) room h = λ e. cc
read_loop_ends buffer (got [] ∷ es) room h = λ e. cc
read_loop_ends buffer (got (b ∷ bs) ∷ es) room h =
    let buffer' = buffer ++ b ∷ bs in
    elim (Bool-cases (has_header_end buffer')) [
      | inl found ↦
          rw (found, read_loop) (finish_read-ne-waiting buffer' es (parse_connect_status buffer'))
      | inr none_yet ↦ elim (Bool-cases (leb buffer_size (length buffer'))) [
        | inl full ↦ rw (none_yet, read_loop) (rw (full, read_loop) (λ e. cc))
        | inr more ↦
            rw (none_yet, read_loop)
              (rw (more, read_loop)
                (read_loop_ends buffer' es (ground arith)
                  (omega (arith, length-append buffer (b ∷ bs)))))
      ]
    ]

after_read-ne-waiting :
    (sent : Bytes) (p : Progress Response) → p ≢ waiting → after_read sent p ≢ waiting
unfolding after_read after_status
after_read-ne-waiting sent (done r) h = ground arith
after_read-ne-waiting sent (failed e) h = λ x. cc
after_read-ne-waiting sent waiting h = λ x. h refl

after_write-ne-waiting :
    (w : Bytes × Progress (Unit {0})) (reads : List ReadEvent)
    → w.1 ≢ waiting
    → read_loop [] reads ≢ waiting
    → after_write w reads ≢ waiting
unfolding after_write
after_write-ne-waiting (sent, done u) reads h k = after_read-ne-waiting sent (read_loop [] reads) k
after_write-ne-waiting (sent, failed e) reads h k = λ x. cc
after_write-ne-waiting (sent, waiting) reads h k = λ x. h refl

-- The bytes of a request, if it can be built.
abbrev pub request_size : Result String → ℕ
request_size (ok text) = length (as_bytes text)
request_size (err e) = 0

send_request-ne-waiting :
    (request : Result String) (writes : List WriteEvent) (reads : List ReadEvent)
    → request_size request ≤ writes_done writes
    → buffer_size ≤ reads_done reads
    → send_request request writes reads ≢ waiting
unfolding send_request
send_request-ne-waiting (err e) writes reads h k = λ x. cc
send_request-ne-waiting (ok text) writes reads h k =
    after_write-ne-waiting (write_loop (as_bytes text) 0 writes) reads
      (write_loop_ends (as_bytes text) 0 writes (omega arith))
      (read_loop_ends [] reads (omega arith) (omega arith))

module _ (is_alphanumeric : Char → Bool) (env : String → Option String) where
  -- `http_connect` ends if the write loop has at least as many rounds that do not block as the
  -- request has bytes, and the read loop at least as many as the buffer has bytes.
  pub http_connect_ends :
      (target : String) (headers : Dict String) (writes : List WriteEvent) (reads : List ReadEvent)
      → request_size (build_request is_alphanumeric env target headers) ≤ writes_done writes
      → buffer_size ≤ reads_done reads
      → http_connect is_alphanumeric env target headers writes reads ≢ waiting
  unfolding http_connect
  http_connect_ends target headers writes reads =
      send_request-ne-waiting (build_request is_alphanumeric env target headers) writes reads
