-- ===== src/Upstreams/Http/Reading.antt =====
-- upstreams/proxy_to_upstream/http.rs, the read loop of `http_connect`.
use tls_proxy_tunnel.Base.{
  ◌≤◌, ◌<◌, ◌≡◌, ◌≢◌, refl, sym, ap, ◌∙◌, inl, inr, true, false, List, [], ◌∷◌, ◌++◌, arith, leb,
  length, length-append, Bool-cases, All,
}
use mathlib.Core.List.{append_assoc, append-nil}
use mathlib.Core.Bool.{false≢true}
use tls_proxy_tunnel.Utf8.{Bytes}
use tls_proxy_tunnel.Upstreams.Status.{parse_connect_status}
use tls_proxy_tunnel.Upstreams.Http.{
  failed, ReadEvent, got, read_blocked, read_failed, not_readable, buffer_size, has_header_end,
  closed_early, header_too_large, finish_read, read_loop,
}

-- The end of a header stays found when more bytes come.
has_header_end-append :
    (xs ys : Bytes) → has_header_end xs ≡ true → has_header_end (xs ++ ys) ≡ true
unfolding has_header_end
has_header_end-append [] ys h = cc
has_header_end-append (a ∷ []) ys h = cc
has_header_end-append (a ∷ b ∷ []) ys h = cc
has_header_end-append (a ∷ b ∷ c ∷ []) ys h = cc
has_header_end-append (a ∷ b ∷ c ∷ d ∷ xs) ys h =
    ground (arith, has_header_end-append (b ∷ c ∷ d ∷ xs) ys)

-- A response in pieces: reads that block are allowed between them.
abbrev pub pieces : List ReadEvent → Bytes
pieces [] = []
pieces (got bs ∷ es) = bs ++ pieces es
pieces (read_blocked ∷ es) = pieces es
pieces (read_failed x ∷ es) = pieces es
pieces (not_readable x ∷ es) = pieces es

-- Reads that bring bytes, or block.
abbrev pub IsData : ReadEvent → Type 0
IsData (got bs) = bs ≢ []
IsData read_blocked = Unit
IsData (read_failed x) = ⊥
IsData (not_readable x) = ⊥

no_end_before : (xs ys : Bytes) → has_header_end (xs ++ ys) ≡ false → has_header_end xs ≡ false
no_end_before xs ys h = elim (Bool-cases (has_header_end xs)) [
  | inl e ↦ absurd (false≢true (sym h ∙ has_header_end-append xs ys e))
  | inr e ↦ e
]

has_room : (xs ys : Bytes) → length (xs ++ ys) < buffer_size → leb buffer_size (length xs) ≡ false
has_room xs ys l = ground (arith, length-append xs ys)

read_last :
    (buffer last : Bytes) (left : List ReadEvent)
    → last ≢ []
    → has_header_end (buffer ++ last) ≡ true
    → read_loop buffer (got last ∷ left)
      ≡ finish_read (buffer ++ last) left (parse_connect_status (buffer ++ last))
unfolding read_loop
read_last buffer [] left some e = absurd (some refl)
read_last buffer (b ∷ bs) left some e = rw (e, read_loop) refl

read_full :
    (buffer last : Bytes) (left : List ReadEvent)
    → last ≢ []
    → has_header_end (buffer ++ last) ≡ false
    → buffer_size ≤ length (buffer ++ last)
    → read_loop buffer (got last ∷ left) ≡ failed header_too_large
unfolding read_loop
read_full buffer [] left some e full = absurd (some refl)
read_full buffer (b ∷ bs) left some e full =
    let no_room : leb buffer_size (length (buffer ++ b ∷ bs)) ≡ true = ground arith in
    rw (e, read_loop) (rw (no_room, read_loop) refl)

-- While no header end has come and there is room, the loop goes on: the reads so far are joined.
read_loop-pieces :
    (buffer : Bytes) (es es' : List ReadEvent)
    → All IsData es
    → has_header_end (buffer ++ pieces es) ≡ false
    → length (buffer ++ pieces es) < buffer_size
    → read_loop buffer (es ++ es') ≡ read_loop (buffer ++ pieces es) es'
unfolding read_loop
read_loop-pieces buffer [] es' d h l = rw (append-nil buffer) refl
read_loop-pieces buffer (read_blocked ∷ es) es' d h l = read_loop-pieces buffer es es' d.1 h l
read_loop-pieces buffer (read_failed x ∷ es) es' d h l = absurd d.0
read_loop-pieces buffer (not_readable x ∷ es) es' d h l = absurd d.0
read_loop-pieces buffer (got [] ∷ es) es' d h l = absurd (d.0 refl)
read_loop-pieces buffer (got (b ∷ bs) ∷ es) es' d h l =
    let assoc = append_assoc buffer (b ∷ bs) (pieces es) in
    let h' : has_header_end ((buffer ++ b ∷ bs) ++ pieces es) ≡ false = rw assoc h in
    let l' : length ((buffer ++ b ∷ bs) ++ pieces es) < buffer_size = rw assoc l in
    rw (no_end_before (buffer ++ b ∷ bs) (pieces es) h', read_loop)
      (rw (has_room (buffer ++ b ∷ bs) (pieces es) l', read_loop)
        (read_loop-pieces (buffer ++ b ∷ bs) es es' d.1 h' l'
          ∙ ap (λ buf. read_loop buf es') assoc))

-- If a header's end first shows up with a read that brings some bytes, after reads that brought
-- bytes or blocked and fewer than 16384 bytes in all, the loop takes the status from all that was
-- read up to and with this read, however it was cut, and leaves the later reads alone.
pub read_loop_fragmented :
    (es : List ReadEvent) (last : Bytes) (left : List ReadEvent)
    → All IsData es
    → last ≢ []
    → has_header_end (pieces es) ≡ false
    → length (pieces es) < buffer_size
    → has_header_end (pieces es ++ last) ≡ true
    → read_loop [] (es ++ got last ∷ left)
      ≡ finish_read (pieces es ++ last) left (parse_connect_status (pieces es ++ last))
read_loop_fragmented es last left d some h l e =
    read_loop-pieces [] es (got last ∷ left) d h l ∙ read_last (pieces es) last left some e

-- If the reads have brought at least 16384 bytes without a header's end, and fewer than that before
-- the last read, the loop fails with the error of a header that is too large.
pub read_loop_too_large :
    (es : List ReadEvent) (last : Bytes) (left : List ReadEvent)
    → All IsData es
    → last ≢ []
    → length (pieces es) < buffer_size
    → buffer_size ≤ length (pieces es ++ last)
    → has_header_end (pieces es ++ last) ≡ false
    → read_loop [] (es ++ got last ∷ left) ≡ failed header_too_large
read_loop_too_large es last left d some l full e =
    read_loop-pieces [] es (got last ∷ left) d (no_end_before (pieces es) last e) l
    ∙ read_full (pieces es) last left some e full

-- If the upstream closes the connection before the header's end, after fewer than 16384 bytes, the
-- loop fails with the error of an early close.
pub read_loop_closed :
    (es left : List ReadEvent)
    → All IsData es
    → has_header_end (pieces es) ≡ false
    → length (pieces es) < buffer_size
    → read_loop [] (es ++ got [] ∷ left) ≡ failed closed_early
unfolding read_loop
read_loop_closed es left d h l = read_loop-pieces [] es (got [] ∷ left) d h l
