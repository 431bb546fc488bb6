-- ===== src/Upstreams/Http/Ended.antt =====
-- upstreams/proxy_to_upstream/http.rs: what a read loop that has ended has read.
use mathlib.Core.List.{append_assoc, append-nil}
use tls_proxy_tunnel.Base.{
  ◌≡◌, refl, sym, ap, ◌∙◌, inl, inr, true, false, List, [], ◌∷◌, ◌++◌, arith, leb, length,
  Bool-cases,
}
use tls_proxy_tunnel.Utf8.{Bytes}
use tls_proxy_tunnel.Upstreams.Failure.{Failure, ok, Result-cases}
use tls_proxy_tunnel.Upstreams.Status.{parse_connect_status}
use tls_proxy_tunnel.Upstreams.Http.{
  done, failed, ReadEvent, got, read_blocked, read_failed, not_readable, buffer_size,
  has_header_end, Response, finish_read, read_loop,
}
use tls_proxy_tunnel.Upstreams.Http.Reading.{pieces}

-- The reads that a finished loop used, and the bytes that they brought: the header's end is there
-- with the last of these reads, and was not before it.
pub record IsRead (buffer : Bytes) (es : List ReadEvent) (r : Response) : Type 0 where
  pub used : List ReadEvent
  pub split : es ≡ used ++ r.left
  pub joined : r.buffer ≡ buffer ++ pieces used
  pub before : List ReadEvent
  pub last : ReadEvent
  pub last_of : used ≡ before ++ last ∷ []
  pub none_before : has_header_end (buffer ++ pieces before) ≡ false
  pub ended : has_header_end r.buffer ≡ true
  pub parsed : parse_connect_status r.buffer ≡ ok r.status

finish_read-IsRead :
    (buffer bs : Bytes) (es : List ReadEvent) (r : Response)
    → has_header_end buffer ≡ false
    → has_header_end (buffer ++ bs) ≡ true
    → finish_read (buffer ++ bs) es (parse_connect_status (buffer ++ bs)) ≡ done r
    → IsRead buffer (got bs ∷ es) r
unfolding finish_read
finish_read-IsRead buffer bs es r n e h =
    elim (Result-cases (parse_connect_status (buffer ++ bs))) [
      | inl (status, p) ↦
          let made : done (record { buffer = buffer ++ bs; status = status; left = es }) ≡ done r =
            (rw (p, finish_read) at h) in
          let buffer_eq : r.buffer ≡ buffer ++ bs = ground arith in
          let status_eq : r.status ≡ status = ground arith in
          record {
            used = got bs ∷ [];
            split = ground arith;
            joined = rw (append-nil bs) buffer_eq;
            before = [];
            last = got bs;
            last_of = refl;
            none_before = ap has_header_end (append-nil buffer) ∙ n;
            ended = rw buffer_eq e;
            parsed = rw (buffer_eq, status_eq) p;
          }
      | inr (x, p) ↦ absurd (failed_not_done x r (rw (p, finish_read) at h))
    ]
  where
    failed_not_done : (x : Failure) (r : Response) → failed x ≡ done r → ⊥
    failed_not_done x r h = cc

skip-IsRead :
    (buffer bs : Bytes) (e : ReadEvent) (es : List ReadEvent) (r : Response)
    → ((us : List ReadEvent) → pieces (e ∷ us) ≡ bs ++ pieces us)
    → IsRead (buffer ++ bs) es r
    → IsRead buffer (e ∷ es) r
skip-IsRead buffer bs e es r brings i = record {
  used = e ∷ i.used;
  split = ap (λ us. e ∷ us) i.split;
  joined =
      i.joined
      ∙ append_assoc buffer bs (pieces i.used)
      ∙ ap (λ ps. buffer ++ ps) (sym (brings i.used));
  before = e ∷ i.before;
  last = i.last;
  last_of = ap (λ us. e ∷ us) i.last_of;
  none_before =
      ap has_header_end
        (ap (λ ps. buffer ++ ps) (brings i.before) ∙ sym (append_assoc buffer bs (pieces i.before)))
      ∙ i.none_before;
  ended = i.ended;
  parsed = i.parsed;
}

pub read_loop-IsRead :
    (buffer : Bytes) (es : List ReadEvent) (r : Response)
    → has_header_end buffer ≡ false
    → read_loop buffer es ≡ done r
    → IsRead buffer es r
unfolding read_loop
read_loop-IsRead buffer [] r n h = absurd (cc)
read_loop-IsRead buffer (read_blocked ∷ es) r n h =
    skip-IsRead buffer [] read_blocked es r (λ us. refl)
      (rw (append-nil buffer) (read_loop-IsRead buffer es r n h))
read_loop-IsRead buffer (read_failed x ∷ es) r n h = absurd (cc)
read_loop-IsRead buffer (not_readable x ∷ es) r n h = absurd (cc)
read_loop-IsRead buffer (got [] ∷ es) r n h = absurd (cc)
read_loop-IsRead buffer (got (b ∷ bs) ∷ es) r n h =
    elim (Bool-cases (has_header_end (buffer ++ b ∷ bs))) [
      | inl e ↦ finish_read-IsRead buffer (b ∷ bs) es r n e (rw (e, read_loop) at h)
      | inr none_yet ↦ elim (Bool-cases (leb buffer_size (length (buffer ++ b ∷ bs)))) [
        | inl full ↦
            absurd (failed_not_done r (rw (full, read_loop) at (rw (none_yet, read_loop) at h)))
        | inr room ↦
            skip-IsRead buffer (b ∷ bs) (got (b ∷ bs)) es r (λ us. refl)
              (read_loop-IsRead (buffer ++ b ∷ bs) es r none_yet
                (rw (room, read_loop) at (rw (none_yet, read_loop) at h)))
      ]
    ]
  where
    failed_not_done : {x : Failure} (r : Response) → failed x ≡ done r → ⊥
    failed_not_done r h = cc
