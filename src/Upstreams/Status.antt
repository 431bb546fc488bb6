-- ===== src/Upstreams/Status.antt =====
-- upstreams/proxy_to_upstream/http.rs, `parse_connect_status`: `split_whitespace`, `nth(1)` and
-- `parse::<u16>`, and what `http_connect` makes of the status.
pub mod Codes
pub mod RoundTrip
mod Examples
use Prim.Native.String
use tls_proxy_tunnel.Base.{
  ℕ, ◌+◌, ◌-◌, ◌*◌, ◌^◌, ◌≡◌, refl, Bool, true, false, ◌&&◌, ◌||◌, Option, none, some, List, [],
  ◌∷◌, ◌++◌, String, ltb, leb, ◌==◌, if◌then◌else◌, show,
}
use tls_proxy_tunnel.Utf8.{Bytes, from_utf8_lossy, to_string}
use tls_proxy_tunnel.Upstreams.Failure.{Result, ok, err, proxy_error, ◌>>=◌}

-- `char::is_whitespace`
unfoldable pub is_whitespace : ℕ → Bool
is_whitespace c =
    (leb 9 c && leb c 13)
    || (c == 32
        || (c == 0x85
            || (c == 0xa0
                || (c == 0x1680
                    || ((leb 0x2000 c && leb c 0x200a)
                        || (c == 0x2028
                            || (c == 0x2029 || (c == 0x202f || (c == 0x205f || c == 0x3000)))))))))

flush : List ℕ → List (List ℕ) → List (List ℕ)
flush [] words = words
flush (c ∷ cs) words = (c ∷ cs) ∷ words

-- `split_whitespace`, with the characters of the word that is being read.
unfoldable pub words_from : List ℕ → List ℕ → List (List ℕ)
unfolding flush is_whitespace
words_from word [] = flush word []
words_from word (c ∷ cs) = elim (is_whitespace c) [
  | true ↦ flush word (words_from [] cs)
  | false ↦ words_from (word ++ c ∷ []) cs
]

second : List (List ℕ) → Option (List ℕ)
second [] = none
second (w ∷ []) = none
second (w ∷ v ∷ ws) = some v

-- The error texts of `ParseIntError`.
pub data Parsed : Type 0 where
  number : ℕ → Parsed
  not_number : String → Parsed

abbrev pub too_large : String
too_large = "number too large to fit in target type"

abbrev pub invalid_digit : String
invalid_digit = "invalid digit found in string"

-- The digits behind `n`; the product and the sum are checked.
unfoldable pub parse_digits : ℕ → List ℕ → Parsed
parse_digits n [] = number n
parse_digits n (c ∷ cs) =
    let m = n * 10 + (c - b'0') in
    let rest = parse_digits m cs in
    if leb b'0' c && leb c b'9'
    then if ltb m (2 ^ 16) then rest else not_number too_large
    else not_number invalid_digit

-- A sign is taken off in front of a digit; `-` is no digit.
unfoldable pub parse_u16 : List ℕ → Parsed
unfolding parse_digits
parse_u16 [] = not_number "cannot parse integer from empty string"
parse_u16 (c ∷ []) = parse_digits 0 (c ∷ [])
parse_u16 (c ∷ d ∷ cs) = if c == b'+' then parse_digits 0 (d ∷ cs) else parse_digits 0 (c ∷ d ∷ cs)

abbrev pub no_status : String
no_status = "malformed CONNECT response: no status code"

abbrev pub bad_status : List ℕ → String → String
bad_status status text =
    String.◌++◌ "malformed CONNECT response status '"
      (String.◌++◌ (to_string status) (String.◌++◌ "': " text))

status_of : List ℕ → Parsed → Result ℕ
status_of word (number n) = ok n
status_of word (not_number text) = err (proxy_error (bad_status word text))

read_status : Option (List ℕ) → Result ℕ
unfolding parse_u16 status_of
read_status none = err (proxy_error no_status)
read_status (some word) = status_of word (parse_u16 word)

unfoldable pub parse_connect_status : Bytes → Result ℕ
unfolding from_utf8_lossy words_from second read_status
parse_connect_status buf = read_status (second (words_from [] (from_utf8_lossy buf)))

-- The `match status` of `http_connect`.
unfoldable pub check_status : ℕ → Result (Unit {0})
check_status status =
    if leb 200 status && leb status 299
    then ok tt
    else if status == 403
    then err (proxy_error "Got: ERR_ACCESS_DENIED. Proxy requires authentication.")
    else if status == 502
    then err (proxy_error "Got: 502 Bad Gateway.")
    else if status == 503
    then err (proxy_error "Got: 503 Service Unavailable.")
    else err (proxy_error (String.◌++◌ "upstream proxy returned status " (show status)))
