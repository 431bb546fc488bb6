-- ===== src/Upstreams/Http/Refused.antt =====
-- upstreams/proxy_to_upstream/http.rs, `http_connect` where it fails.
use mathlib.Core.List.{Memᴰ}
use tls_proxy_tunnel.Base.{
  ℕ, ◌<◌, ◌≡◌, refl, sym, ap, ◌∙◌, subst, ◌⊎◌, inl, inr, Bool, true, false, List, [], ◌∷◌, ◌++◌,
  Char, String, Option, arith, leb, ltb, ◌+◌, length, ◌==◌, Bool-cases,
}
use tls_proxy_tunnel.Base.Dict.{Dict}
use tls_proxy_tunnel.Utf8.{Bytes, as_bytes}
use tls_proxy_tunnel.Net.{IoError}
use tls_proxy_tunnel.Upstreams.Failure.{Failure, io_error, Result, ok, err}
use tls_proxy_tunnel.Upstreams.Status.{parse_connect_status, check_status}
use tls_proxy_tunnel.Upstreams.Http.{
  WriteEvent, wrote, write_blocked, write_failed, not_writable, write_loop, Progress, done, failed,
  waiting, ReadEvent, has_header_end, Response, read_loop, after_status, after_read, after_write,
  send_request, build_request, http_connect,
}
use tls_proxy_tunnel.Upstreams.Http.Reading.{pieces}
use tls_proxy_tunnel.Upstreams.Http.Ended.{read_loop-IsRead}
use tls_proxy_tunnel.Upstreams.Http.Unread.{IsUnread, read_loop-IsUnread}

-- The error of a round among the rounds.
abbrev IsBroken : List WriteEvent → Failure → Type 0
IsBroken es x =
    (y : IoError) × (x ≡ io_error y) × (Memᴰ (write_failed y) es ⊎ Memᴰ (not_writable y) es)

IsBroken-cons :
    (e : WriteEvent) (es : List WriteEvent) (x : Failure) → IsBroken es x → IsBroken (e ∷ es) x
IsBroken-cons e es x (y, same, inl m) = (y, same, inl (Memᴰ.tail m))
IsBroken-cons e es x (y, same, inr m) = (y, same, inr (Memᴰ.tail m))

write_round-IsBroken :
    (bytes : Bytes) (written : ℕ) (e : WriteEvent) (es : List WriteEvent) (x : Failure)
    → ((k : ℕ) → (write_loop bytes k es).1 ≡ failed x → IsBroken es x)
    → leb (length bytes) written ≡ false
    → (write_loop bytes written (e ∷ es)).1 ≡ failed x
    → IsBroken (e ∷ es) x
unfolding write_loop
write_round-IsBroken bytes written (wrote n) es x ih more h = elim (Bool-cases (n == 0)) [
  | inl zero_sent ↦ absurd (ground arith)
  | inr some_sent ↦ IsBroken-cons (wrote n) es x (ih (written + n) (ground arith))
]
write_round-IsBroken bytes written write_blocked es x ih more h =
    IsBroken-cons write_blocked es x (ih written (ground arith))
write_round-IsBroken bytes written (write_failed y) es x ih more h =
    (y, ground arith, inl (Memᴰ.head refl))
write_round-IsBroken bytes written (not_writable y) es x ih more h =
    (y, ground arith, inr (Memᴰ.head refl))

write_loop-IsBroken :
    (bytes : Bytes) (written : ℕ) (es : List WriteEvent) (x : Failure)
    → (write_loop bytes written es).1 ≡ failed x
    → IsBroken es x
unfolding write_loop
write_loop-IsBroken bytes written [] x h = absurd (ground arith)
write_loop-IsBroken bytes written (e ∷ es) x h = elim (Bool-cases (leb (length bytes) written)) [
  | inl all ↦ absurd (ground arith)
  | inr more ↦
      write_round-IsBroken bytes written e es x (λ k. write_loop-IsBroken bytes k es x) more h
]

-- Why a request was refused.
pub data IsRefusal (request : Result String) (writes : List WriteEvent) (reads : List ReadEvent)
    : Failure → Type 0 where
  not_built : {e : Failure} → request ≡ err e → IsRefusal request writes reads e
  not_written :
      (x : IoError)
      → Memᴰ (write_failed x) writes ⊎ Memᴰ (not_writable x) writes
      → IsRefusal request writes reads (io_error x)
  not_read : {e : Failure} → IsUnread [] reads e → IsRefusal request writes reads e
  unsuccessful :
      (used rest : List ReadEvent) (status : ℕ) {e : Failure}
      → reads ≡ used ++ rest
      → has_header_end (pieces used) ≡ true
      → parse_connect_status (pieces used) ≡ ok status
      → (status < 200) ⊎ (299 < status)
      → check_status status ≡ err e
      → IsRefusal request writes reads e

check_status-out :
    (status : ℕ) (e : Failure) → check_status status ≡ err e → (status < 200) ⊎ (299 < status)
unfolding check_status
check_status-out status e h = elim (Bool-cases (ltb status 200)) [
  | inl low ↦ inl (ground arith)
  | inr high ↦ inr (ground arith)
]

after_status-failed :
    (sent : Bytes) (r : Response) (o : Result (Unit {0})) (x : Failure)
    → after_status sent r o ≡ failed x
    → o ≡ err x
unfolding after_status
after_status-failed sent r (ok u) x h = absurd (cc)
after_status-failed sent r (err e) x h = ground arith

module _ (request : Result String) (writes : List WriteEvent) (reads : List ReadEvent)
    (x : Failure) where
  after_read-IsRefusal :
      (sent : Bytes) (p : Progress Response)
      → read_loop [] reads ≡ p
      → after_read sent p ≡ failed x
      → IsRefusal request writes reads x
  unfolding after_read has_header_end
  after_read-IsRefusal sent (done r) e h =
      let bad = after_status-failed sent r (check_status r.status) x h in
      let i = read_loop-IsRead [] reads r refl e in
      unsuccessful i.used r.left r.status i.split (ap has_header_end (sym i.joined) ∙ i.ended)
        (ap parse_connect_status (sym i.joined) ∙ i.parsed) (check_status-out r.status x bad) bad
  after_read-IsRefusal sent (failed y) e h =
      let same : y ≡ x = ground arith in
      not_read (read_loop-IsUnread [] reads x refl (e ∙ ap failed same))
  after_read-IsRefusal sent waiting e h = absurd (cc)

  after_write-IsRefusal :
      (w : Bytes × Progress (Unit {0}))
      → (w.1 ≡ failed x → IsBroken writes x)
      → after_write w reads ≡ failed x
      → IsRefusal request writes reads x
  unfolding after_write
  after_write-IsRefusal (sent, done u) broken_then h =
      after_read-IsRefusal sent (read_loop [] reads) refl h
  after_write-IsRefusal (sent, failed y) broken_then h =
      let failure : y ≡ x = ground arith in
      let (z, same, m) = broken_then (ap failed failure) in
      subst (IsRefusal request writes reads) (sym same) (not_written z m)
  after_write-IsRefusal (sent, waiting) broken_then h = absurd (cc)

send_request-IsRefusal :
    (request : Result String) (writes : List WriteEvent) (reads : List ReadEvent) (x : Failure)
    → send_request request writes reads ≡ failed x
    → IsRefusal request writes reads x
unfolding send_request
send_request-IsRefusal (err e) writes reads x h =
    let same : e ≡ x = ground arith in not_built (ap err same)
send_request-IsRefusal (ok text) writes reads x h =
    after_write-IsRefusal (ok text) writes reads x (write_loop (as_bytes text) 0 writes)
      (write_loop-IsBroken (as_bytes text) 0 writes x) h

module _ (is_alphanumeric : Char → Bool) (env : String → Option String) where
  -- If `http_connect` fails, then the request could not be built, a round of the write loop had
  -- this I/O error, the reads behind those that brought bytes without a header's end failed, ended
  -- or filled the buffer, or the bytes up to the header's end have no status or one outside of 200
  -- to 299.
  pub http_connect-IsRefusal :
      (target : String) (headers : Dict String) (writes : List WriteEvent) (reads : List ReadEvent)
      (x : Failure)
      → http_connect is_alphanumeric env target headers writes reads ≡ failed x
      → IsRefusal (build_request is_alphanumeric env target headers) writes reads x
  unfolding http_connect
  http_connect-IsRefusal target headers writes reads x =
      send_request-IsRefusal (build_request is_alphanumeric env target headers) writes reads x
