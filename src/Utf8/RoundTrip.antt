-- ===== src/Utf8/RoundTrip.antt =====
-- `String::as_bytes` and the decoders, one after the other.
use Prim.Native.Char.{char}
use text.Mathlib.TextEquality.{Char-path}
use tls_proxy_tunnel.Base.{
  All, ℕ, ◌+◌, ◌-◌, ◌*◌, ◌/◌, ◌%◌, ◌<◌, ◌≤◌, ◌≡◌, refl, ◌⊎◌, ap, some, List, [], ◌∷◌, ◌++◌, Char,
  code, String, arith,
}
use tls_proxy_tunnel.Base.Texts.{codes}
use tls_proxy_tunnel.Utf8.{
  decode_lossy, from_utf8_lossy, lead, Bytes, start, more, emit, step, cons_some, decode, to_char,
  to_string, from_utf8, encode_char, as_bytes,
}

abbrev Scalar : ℕ → Type 0
Scalar n = (n < 0xd800) ⊎ ((0xdfff < n) × (n < 0x110000))

decode-1 : (c : ℕ) (bs : Bytes) → c < 0x80 → decode start (c ∷ bs) ≡ cons_some c (decode start bs)
unfolding decode
decode-1 c bs h = ground arith

decode-2 :
    (c : ℕ) (bs : Bytes)
    → 0x80 ≤ c
    → c < 0x800
    → decode start ((0xc0 + c / 64) ∷ (0x80 + c % 64) ∷ bs) ≡ cons_some c (decode start bs)
unfolding decode
decode-2 c bs l h = ground arith

step-continue :
    (acc b : ℕ) → 0x80 ≤ b → b ≤ 0xbf → step (more acc 0x80 0xbf 0) b ≡ emit (acc * 64 + (b - 0x80))
unfolding step
step-continue acc b l h = ground arith

decode-3 :
    (c : ℕ) (bs : Bytes)
    → 0x800 ≤ c
    → c < 0x10000
    → Scalar c
    → decode start ((0xe0 + c / 4096) ∷ (0x80 + c / 64 % 64) ∷ (0x80 + c % 64) ∷ bs)
      ≡ cons_some c (decode start bs)
unfolding decode
decode-3 c bs l h s = ground arith

decode-4 :
    (c : ℕ) (bs : Bytes)
    → 0x10000 ≤ c
    → c < 0x110000
    → decode start
        ((0xf0 + c / 262144) ∷ (0x80 + c / 4096 % 64) ∷ (0x80 + c / 64 % 64) ∷ (0x80 + c % 64) ∷ bs)
      ≡ cons_some c (decode start bs)
unfolding decode
decode-4 c bs l h = ground arith

decode-encode_char :
    (c : ℕ) (bs : Bytes)
    → Scalar c
    → decode start (encode_char c ++ bs) ≡ cons_some c (decode start bs)
unfolding encode_char
decode-encode_char c bs s =
    ground (arith, decode-1 c bs, decode-2 c bs, decode-3 c bs, decode-4 c bs)

code-Scalar : (c : Char) → Scalar (code c)
code-Scalar (char n s) = ground arith

code-to_char : (n : ℕ) → Scalar n → code (to_char n) ≡ n
unfolding to_char
code-to_char n s = ground arith

to_char-code : (c : Char) → to_char (code c) ≡ c
to_char-code c = Char-path (to_char (code c)) c (code-to_char (code c) (code-Scalar c))

decode-as_bytes :
    (s : String) → (ds : List ℕ) × (decode start (as_bytes s) ≡ some ds) × (to_string ds ≡ s)
unfolding as_bytes to_string decode
decode-as_bytes String.[] = ([], refl, refl)
decode-as_bytes (String.◌∷◌ c s) =
    let (ds, e, same) = decode-as_bytes s in
    let first = decode-encode_char (code c) (as_bytes s) (code-Scalar c) in
    (code c ∷ ds, rw (first, e) refl, rw (to_char-code c, same) refl)

-- Every text is read back from its bytes.
pub from_utf8-as_bytes : (s : String) → from_utf8 (as_bytes s) ≡ some s
unfolding from_utf8
from_utf8-as_bytes s = let (ds, e, same) = decode-as_bytes s in rw e (ap some same)

-- ASCII bytes are their own characters, whatever follows.
pub from_utf8_lossy_ascii :
    (xs ys : Bytes) → All (λ b. b < 0x80) xs → from_utf8_lossy (xs ++ ys) ≡ xs ++ from_utf8_lossy ys
unfolding from_utf8_lossy
from_utf8_lossy_ascii [] ys h = refl
from_utf8_lossy_ascii (x ∷ xs) ys h =
    rw (lead_ascii x h.0, decode_lossy) (ap (λ cs. x ∷ cs) (from_utf8_lossy_ascii xs ys h.1))
  where
    lead_ascii : (x : ℕ) → x < 0x80 → lead x ≡ emit x
    lead_ascii x h = ground arith

-- The bytes of an ASCII text are its code points.
pub as_bytes_ascii : (s : String) → All (λ c. c < 0x80) (codes s) → as_bytes s ≡ codes s
unfolding as_bytes encode_char
as_bytes_ascii String.[] h = refl
as_bytes_ascii (String.◌∷◌ c s) h = ground (arith, as_bytes_ascii s h.1)
