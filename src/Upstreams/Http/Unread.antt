-- ===== src/Upstreams/Http/Unread.antt =====
-- upstreams/proxy_to_upstream/http.rs, the read loop of `http_connect` where it fails.
use mathlib.Core.List.{append_assoc, append-nil}
use tls_proxy_tunnel.Base.{
  ℕ, ◌≤◌, ◌≡◌, refl, sym, ap, ◌∙◌, subst, ◌⊎◌, inl, inr, true, false, List, [], ◌∷◌, ◌++◌, arith,
  leb, length, Bool-cases, All,
}
use tls_proxy_tunnel.Utf8.{Bytes}
use tls_proxy_tunnel.Net.{IoError}
use tls_proxy_tunnel.Upstreams.Failure.{Failure, io_error, Result, ok, err}
use tls_proxy_tunnel.Upstreams.Status.{parse_connect_status}
use tls_proxy_tunnel.Upstreams.Http.{
  Progress, failed, ReadEvent, got, read_blocked, read_failed, not_readable, buffer_size,
  has_header_end, closed_early, header_too_large, Response, finish_read, read_loop,
}
use tls_proxy_tunnel.Upstreams.Http.Reading.{pieces, IsData}

-- Some first reads, which brought bytes or blocked, and the others.
pub record IsPrefix (es used rest : List ReadEvent) : Type 0 where
  pub split : es ≡ used ++ rest
  pub brought : All IsData used

-- How the reads behind a buffer came to fail.
pub data IsUnread (buffer : Bytes) (es : List ReadEvent) : Failure → Type 0 where
  broken :
      (used rest : List ReadEvent) (ev : ReadEvent) (x : IoError)
      → IsPrefix es used (ev ∷ rest)
      → has_header_end (buffer ++ pieces used) ≡ false
      → (ev ≡ read_failed x) ⊎ (ev ≡ not_readable x)
      → IsUnread buffer es (io_error x)
  closed :
      (used rest : List ReadEvent)
      → IsPrefix es used (got [] ∷ rest)
      → has_header_end (buffer ++ pieces used) ≡ false
      → IsUnread buffer es closed_early
  too_large :
      (used rest : List ReadEvent)
      → IsPrefix es used rest
      → has_header_end (buffer ++ pieces used) ≡ false
      → buffer_size ≤ length (buffer ++ pieces used)
      → IsUnread buffer es header_too_large
  malformed :
      (used rest : List ReadEvent) {e : Failure}
      → IsPrefix es used rest
      → has_header_end (buffer ++ pieces used) ≡ true
      → parse_connect_status (buffer ++ pieces used) ≡ err e
      → IsUnread buffer es e

IsPrefix-cons :
    (e : ReadEvent) (es used rest : List ReadEvent)
    → IsData e
    → IsPrefix es used rest
    → IsPrefix (e ∷ es) (e ∷ used) rest
IsPrefix-cons e es used rest d p = record {
  split = ap (λ us. e ∷ us) p.split;
  brought = (d, p.brought);
}

skip-IsUnread :
    (buffer bs : Bytes) (e : ReadEvent) (es : List ReadEvent) (x : Failure)
    → IsData e
    → ((us : List ReadEvent) → (buffer ++ bs) ++ pieces us ≡ buffer ++ pieces (e ∷ us))
    → IsUnread (buffer ++ bs) es x
    → IsUnread buffer (e ∷ es) x
skip-IsUnread buffer bs e es x d joins (broken used rest ev y p none_yet which) =
    broken (e ∷ used) rest ev y (IsPrefix-cons e es used (ev ∷ rest) d p)
      (ap has_header_end (sym (joins used)) ∙ none_yet) which
skip-IsUnread buffer bs e es x d joins (closed used rest p none_yet) =
    closed (e ∷ used) rest (IsPrefix-cons e es used (got [] ∷ rest) d p)
      (ap has_header_end (sym (joins used)) ∙ none_yet)
skip-IsUnread buffer bs e es x d joins (too_large used rest p none_yet full) =
    too_large (e ∷ used) rest (IsPrefix-cons e es used rest d p)
      (ap has_header_end (sym (joins used)) ∙ none_yet)
      (subst (λ b. buffer_size ≤ length b) (joins used) full)
skip-IsUnread buffer bs e es x d joins (malformed used rest p ended bad) =
    malformed (e ∷ used) rest (IsPrefix-cons e es used rest d p)
      (ap has_header_end (sym (joins used)) ∙ ended)
      (ap parse_connect_status (sym (joins used)) ∙ bad)

-- No read has been made yet.
at_start : (es : List ReadEvent) → IsPrefix es [] es
at_start es = record { split = refl; brought = tt }

finish_read-err :
    (buffer : Bytes) (es : List ReadEvent) (r : Result ℕ) (x : Failure)
    → finish_read buffer es r ≡ failed x
    → r ≡ err x
unfolding finish_read
finish_read-err buffer es (ok status) x h = absurd (cc)
finish_read-err buffer es (err y) x h = ground arith

-- A read that broke down at once.
broken_at :
    (buffer : Bytes) (ev : ReadEvent) (es : List ReadEvent) (y : IoError) (x : Failure)
    → has_header_end buffer ≡ false
    → (ev ≡ read_failed y) ⊎ (ev ≡ not_readable y)
    → ◌≡◌ {A = Progress Response} (failed (io_error y)) (failed x)
    → IsUnread buffer (ev ∷ es) x
broken_at buffer ev es y x n which h =
    let same : io_error y ≡ x = ground arith in
    subst (IsUnread buffer (ev ∷ es)) same
      (broken [] es ev y (at_start (ev ∷ es)) (ap has_header_end (append-nil buffer) ∙ n) which)

pub read_loop-IsUnread :
    (buffer : Bytes) (es : List ReadEvent) (x : Failure)
    → has_header_end buffer ≡ false
    → read_loop buffer es ≡ failed x
    → IsUnread buffer es x
unfolding read_loop
read_loop-IsUnread buffer [] x n h = absurd (cc)
read_loop-IsUnread buffer (read_blocked ∷ es) x n h =
    skip-IsUnread buffer [] read_blocked es x tt (λ us. append_assoc buffer [] (pieces us))
      (rw (append-nil buffer) (read_loop-IsUnread buffer es x n h))
read_loop-IsUnread buffer (read_failed y ∷ es) x n h =
    broken_at buffer (read_failed y) es y x n (inl refl) h
read_loop-IsUnread buffer (not_readable y ∷ es) x n h =
    broken_at buffer (not_readable y) es y x n (inr refl) h
read_loop-IsUnread buffer (got [] ∷ es) x n h =
    let same : closed_early ≡ x = ground arith in
    subst (IsUnread buffer (got [] ∷ es)) same
      (closed [] es (at_start (got [] ∷ es)) (ap has_header_end (append-nil buffer) ∙ n))
read_loop-IsUnread buffer (got (b ∷ bs) ∷ es) x n h =
    let buffer' = buffer ++ b ∷ bs in
    let whole = append-nil buffer' in
    let onward =
      skip-IsUnread buffer (b ∷ bs) (got (b ∷ bs)) es x (λ e. cc)
        (λ us. append_assoc buffer (b ∷ bs) (pieces us)) in
    elim (Bool-cases (has_header_end buffer')) [
      | inl e ↦ onward (
          malformed [] es (at_start es) (ap has_header_end whole ∙ e) (
            ap parse_connect_status whole
            ∙ finish_read-err buffer' es (parse_connect_status buffer') x (rw (e, read_loop) at h)))
      | inr none_yet ↦ elim (Bool-cases (leb buffer_size (length buffer'))) [
        | inl full ↦
            let stopped : ◌≡◌ {A = Progress Response} (failed header_too_large) (failed x) =
              (rw (full, read_loop) at (rw (none_yet, read_loop) at h)) in
            let same : header_too_large ≡ x = ground arith in
            let long : buffer_size ≤ length buffer' = ground arith in
            onward (
              subst (IsUnread buffer' es) same (
                too_large [] es (at_start es) (ap has_header_end whole ∙ none_yet)
                  (subst (λ b. buffer_size ≤ length b) (sym whole) long)))
        | inr room ↦ onward (
            read_loop-IsUnread buffer' es x none_yet
              (rw (room, read_loop) at (rw (none_yet, read_loop) at h)))
      ]
    ]
