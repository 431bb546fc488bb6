-- ===== src/Upstreams/Status/Codes.antt =====
-- upstreams/proxy_to_upstream/http.rs, `parse_connect_status` and the match on the status.
use tls_proxy_tunnel.Base.{
  ℕ, ◌+◌, ◌-◌, ◌*◌, ◌^◌, ◌≤◌, ◌<◌, ◌≡◌, ◌≢◌, refl, ap, ◌∙◌, ◌↔◌, true, false, List, [], ◌∷◌, ◌++◌,
  arith, ◌==◌, All, All-weaken,
}
use mathlib.Core.List.{append_assoc, append-nil}
use tls_proxy_tunnel.Base.Texts.{IsDigit, value}
use tls_proxy_tunnel.Utf8.{Bytes, from_utf8_lossy}
use tls_proxy_tunnel.Utf8.RoundTrip.{from_utf8_lossy_ascii}
use tls_proxy_tunnel.Upstreams.Failure.{ok}
use tls_proxy_tunnel.Upstreams.Status.{
  is_whitespace, flush, words_from, number, parse_digits, parse_u16, read_status,
  parse_connect_status, check_status,
}

-- `check_status` accepts exactly 200 to 299.
pub check_status_iff : (n : ℕ) → (check_status n ≡ ok tt) ↔ ((200 ≤ n) × (n ≤ 299))
unfolding check_status
check_status_iff n = ground arith

-- A word of a status line: ASCII, not blank.
abbrev pub IsWordChar : ℕ → Type 0
IsWordChar c = (33 ≤ c) × (c < 127)

le-value : (n : ℕ) (cs : List ℕ) → n ≤ value n cs
le-value n [] = omega arith
le-value n (c ∷ cs) = omega (arith, le-value (n * 10 + (c - b'0')) cs)

parse_digits_complete :
    (n : ℕ) (cs : List ℕ)
    → All IsDigit cs
    → value n cs < 2 ^ 16
    → parse_digits n cs ≡ number (value n cs)
unfolding parse_digits
parse_digits_complete n [] h f = refl
parse_digits_complete n (c ∷ cs) h f =
    let m = n * 10 + (c - b'0') in ground (arith, parse_digits_complete m cs h.1 f, le-value m cs)

pub parse_u16-digits :
    (cs : List ℕ)
    → cs ≢ []
    → All IsDigit cs
    → value 0 cs < 2 ^ 16
    → parse_u16 cs ≡ number (value 0 cs)
unfolding parse_u16
parse_u16-digits [] e h f = absurd (e refl)
parse_u16-digits (c ∷ []) e h f = parse_digits_complete 0 (c ∷ []) h f
parse_u16-digits (c ∷ d ∷ cs) e h f =
    let plain : (c == b'+') ≡ false = ground arith in
    rw (plain) (parse_digits_complete 0 (c ∷ d ∷ cs) h f)

-- A word ends at the blank behind it.
words_from_word :
    (word cs : List ℕ) (d : ℕ) (rest : List ℕ)
    → All (λ c. is_whitespace c ≡ false) cs
    → is_whitespace d ≡ true
    → words_from word (cs ++ d ∷ rest) ≡ flush (word ++ cs) (words_from [] rest)
unfolding words_from
words_from_word word [] d rest h e = rw (e, words_from) (rw (append-nil word) refl)
words_from_word word (c ∷ cs) d rest h e =
    rw (h.0, words_from)
      (words_from_word (word ++ c ∷ []) cs d rest h.1 e
        ∙ ap (λ w. flush w (words_from [] rest)) (append_assoc word (c ∷ []) cs))

flush-ne-nil : (w : List ℕ) (ws : List (List ℕ)) → w ≢ [] → flush w ws ≡ w ∷ ws
unfolding flush
flush-ne-nil [] ws e = absurd (e refl)
flush-ne-nil (c ∷ cs) ws e = refl

IsWordChar-solid : (c : ℕ) → IsWordChar c → is_whitespace c ≡ false
unfolding is_whitespace
IsWordChar-solid c h = ground arith

IsDigit-IsWordChar : (c : ℕ) → IsDigit c → IsWordChar c
IsDigit-IsWordChar c h = omega arith

pub blank : is_whitespace 32 ≡ true
unfolding is_whitespace
blank = refl

-- The parts of a response's first line that matter: a version without blanks, one space, the
-- digits of a status below 65536, and an ASCII blank. What follows is any bytes at all.
pub record IsResponse (version digits : List ℕ) (sep : ℕ) : Type 0 where
  pub has_version : version ≢ []
  pub version_chars : All IsWordChar version
  pub has_digits : digits ≢ []
  pub digit_chars : All IsDigit digits
  pub fits : value 0 digits < 2 ^ 16
  pub sep_ascii : sep < 0x80
  pub sep_blank : is_whitespace sep ≡ true

response_text :
    (version digits : List ℕ) (sep : ℕ) (rest : Bytes)
    → All IsWordChar version
    → All IsWordChar digits
    → sep < 0x80
    → from_utf8_lossy (version ++ 32 ∷ (digits ++ sep ∷ rest))
      ≡ version ++ 32 ∷ (digits ++ sep ∷ from_utf8_lossy rest)
response_text version digits sep rest v d s =
    let low = All-weaken IsWordChar (λ c. c < 0x80) (λ c h. omega arith) in
    from_utf8_lossy_ascii version (32 ∷ (digits ++ sep ∷ rest)) (low version v)
    ∙ ap (λ cs. version ++ cs)
        (from_utf8_lossy_ascii (32 ∷ []) (digits ++ sep ∷ rest) (omega arith, tt)
          ∙ ap (λ cs. 32 ∷ cs)
              (from_utf8_lossy_ascii digits (sep ∷ rest) (low digits d)
                ∙ ap (λ cs. digits ++ cs) (from_utf8_lossy_ascii (sep ∷ []) rest (s, tt))))

-- The status read from a response that begins with an ASCII word, one space, the digits of a number
-- below 65536 and an ASCII blank is this number, whatever bytes follow.
pub parse_connect_status-IsResponse :
    (version digits : List ℕ) (sep : ℕ) (rest : Bytes)
    → IsResponse version digits sep
    → parse_connect_status (version ++ 32 ∷ (digits ++ sep ∷ rest)) ≡ ok (value 0 digits)
unfolding parse_connect_status
parse_connect_status-IsResponse version digits sep rest r =
    let solid = All-weaken IsWordChar (λ c. is_whitespace c ≡ false) IsWordChar-solid in
    let digit_words = All-weaken IsDigit IsWordChar IsDigit-IsWordChar digits r.digit_chars in
    let tail = from_utf8_lossy rest in
    let words : words_from [] (version ++ 32 ∷ (digits ++ sep ∷ tail))
        ≡ version ∷ digits ∷ words_from [] tail =
      words_from_word [] version 32 (digits ++ sep ∷ tail) (solid version r.version_chars) blank
      ∙ flush-ne-nil version _ r.has_version
      ∙ ap (λ ws. version ∷ ws)
          (words_from_word [] digits sep tail (solid digits digit_words) r.sep_blank
            ∙ flush-ne-nil digits _ r.has_digits) in
    rw (response_text version digits sep rest r.version_chars digit_words r.sep_ascii, words)
      (rw (parse_u16-digits digits r.has_digits r.digit_chars r.fits, read_status) refl)
