-- ===== src/Utf8.antt =====
-- UTF-8 as `String::as_bytes`, `String::from_utf8` and `String::from_utf8_lossy` have it. Bytes
-- are numbers below 256.
pub mod RoundTrip
mod Examples
use Prim.Native.Char.{char, nul, IsScalar}
use Prim.Native.String
use mathlib.Core.Logic.{dite}
use native.Mathlib.Decide.{dec_lt}
use tls_proxy_tunnel.Base.{
  ℕ, zero, suc, ◌+◌, ◌-◌, ◌*◌, ◌/◌, ◌%◌, ◌<◌, ◌≡◌, refl, Bool, true, false, ◌&&◌, ◌||◌, Option,
  none, some, List, [], ◌∷◌, ◌++◌, Char, code, String, arith, ltb, leb, ◌==◌, if◌then◌else◌,
}

abbrev pub Bytes : Type 0
Bytes = List ℕ

-- What a byte does: it ends a code point, it leaves some bytes to come, or it is refused.
-- `more acc lo hi n` waits for `n + 1` bytes, the next of them between `lo` and `hi`.
pub data Decoder : Type 0 where
  start : Decoder
  more : ℕ → ℕ → ℕ → ℕ → Decoder

pub data Effect : Type 0 where
  emit : ℕ → Effect
  wait : Decoder → Effect
  refuse : Effect

abbrev between : ℕ → ℕ → ℕ → Bool
between lo hi b = leb lo b && leb b hi

lead : ℕ → Effect
lead b =
    if ltb b 0x80
    then emit b
    else if between 0xc2 0xdf b
    then wait (more (b - 0xc0) 0x80 0xbf 0)
    else if b == 0xe0
    then wait (more 0 0xa0 0xbf 1)
    else if b == 0xed
    then wait (more 0xd 0x80 0x9f 1)
    else if between 0xe1 0xef b
    then wait (more (b - 0xe0) 0x80 0xbf 1)
    else if b == 0xf0
    then wait (more 0 0x90 0xbf 2)
    else if between 0xf1 0xf3 b
    then wait (more (b - 0xf0) 0x80 0xbf 2)
    else if b == 0xf4
    then wait (more 4 0x80 0x8f 2)
    else refuse

accepted : ℕ → ℕ → Effect
accepted acc zero = emit acc
accepted acc (suc n) = wait (more acc 0x80 0xbf n)

continue : ℕ → ℕ → ℕ → ℕ → ℕ → Effect
unfolding accepted
continue acc lo hi n b = if between lo hi b then accepted (acc * 64 + (b - 0x80)) n else refuse

step : Decoder → ℕ → Effect
unfolding lead continue
step start b = lead b
step (more acc lo hi n) b = continue acc lo hi n b

abbrev cons_some : ℕ → Option (List ℕ) → Option (List ℕ)
cons_some c none = none
cons_some c (some cs) = some (c ∷ cs)

-- The code points, if the bytes are UTF-8.
decode : Decoder → Bytes → Option (List ℕ)
unfolding step
decode start [] = some []
decode (more acc lo hi n) [] = none
decode d (b ∷ bs) = elim (step d b) [
  | emit c ↦ cons_some c (decode start bs)
  | wait d' ↦ decode d' bs
  | refuse ↦ none
]

abbrev pub replacement : ℕ
replacement = 0xfffd

-- One replacement character for each longest run that no code point begins with.
decode_lossy : Decoder → Bytes → List ℕ
unfolding lead continue
decode_lossy start [] = []
decode_lossy (more acc lo hi n) [] = replacement ∷ []
decode_lossy start (b ∷ bs) = elim (lead b) [
  | emit c ↦ c ∷ decode_lossy start bs
  | wait d ↦ decode_lossy d bs
  | refuse ↦ replacement ∷ decode_lossy start bs
]
decode_lossy (more acc lo hi n) (b ∷ bs) = elim (continue acc lo hi n b) [
  | emit c ↦ c ∷ decode_lossy start bs
  | wait d ↦ decode_lossy d bs
  | refuse ↦ elim (lead b) [
    | emit c ↦ replacement ∷ c ∷ decode_lossy start bs
    | wait d ↦ replacement ∷ decode_lossy d bs
    | refuse ↦ replacement ∷ replacement ∷ decode_lossy start bs
  ]
]

unfoldable pub from_utf8_lossy : Bytes → List ℕ
unfolding decode_lossy
from_utf8_lossy bs = decode_lossy start bs

low_scalar : (n : ℕ) → n < 0xd800 → IsScalar n
low_scalar n h = ground arith

high_scalar : (n : ℕ) → 0xdfff < n → n < 0x110000 → IsScalar n
high_scalar n h k = ground arith

-- A number that is no scalar value has no character; the decoder makes none.
to_char : ℕ → Char
unfolding low_scalar high_scalar
to_char n =
    dite (dec_lt n 0xd800) (λ h. char n (low_scalar n h))
      (λ _.
        dite (dec_lt 0xdfff n)
          (λ h. dite (dec_lt n 0x110000) (λ k. char n (high_scalar n h k)) (λ _. nul)) (λ _. nul))

unfoldable pub to_string : List ℕ → String
unfolding to_char
to_string [] = ""
to_string (c ∷ cs) = String.◌∷◌ (to_char c) (to_string cs)

abbrev map_string : Option (List ℕ) → Option String
map_string none = none
map_string (some cs) = some (to_string cs)

unfoldable pub from_utf8 : Bytes → Option String
unfolding decode to_string
from_utf8 bs = map_string (decode start bs)

unfoldable pub encode_char : ℕ → Bytes
encode_char c =
    if ltb c 0x80
    then c ∷ []
    else if ltb c 0x800
    then (0xc0 + c / 64) ∷ (0x80 + c % 64) ∷ []
    else if ltb c 0x10000
    then (0xe0 + c / 4096) ∷ (0x80 + c / 64 % 64) ∷ (0x80 + c % 64) ∷ []
    else (0xf0 + c / 262144) ∷ (0x80 + c / 4096 % 64) ∷ (0x80 + c / 64 % 64) ∷ (0x80 + c % 64) ∷ []

unfoldable pub as_bytes : String → Bytes
unfolding encode_char
as_bytes String.[] = []
as_bytes (String.◌∷◌ c s) = encode_char (code c) ++ as_bytes s
