-- ===== src/Upstreams/Header.antt =====
-- upstreams/proxy_to_upstream/http.rs, `resolve_header_value`. The environment and Unicode's
-- `char::is_alphanumeric` are parameters.
pub mod Resolved
mod Examples
use Prim.Native.String
use tls_proxy_tunnel.Base.{
  ℕ, ◌≡◌, refl, Bool, true, false, not, ◌&&◌, Option, none, some, Char, code, String, ◌==◌, str_eq,
  if◌then◌else◌,
}
use tls_proxy_tunnel.Upstreams.Failure.{Result, ok, err, var_error}

abbrev cons_front : Char → Option (String × String) → Option (String × String)
cons_front c none = none
cons_front c (some (front, rest)) = some (String.◌∷◌ c front, rest)

-- `find('$')` and the two slices around it.
split_dollar : String → Option (String × String)
split_dollar String.[] = none
split_dollar (String.◌∷◌ c s) =
    let later = split_dollar s in if code c == b'$' then some ("", s) else cons_front c later

module _ (is_alphanumeric : Char → Bool) where
  -- The characters of a variable's name.
  abbrev pub is_name_char : Char → Bool
  is_name_char c = not (not (is_alphanumeric c) && not (code c == b'_'))

  -- The name in front and what follows it.
  split_name : String → String × String
  split_name String.[] = ("", "")
  split_name (String.◌∷◌ c s) =
      let (name, suffix) = split_name s in
      if is_name_char c then (String.◌∷◌ c name, suffix) else ("", String.◌∷◌ c s)

  module _ (env : String → Option String) where
    -- A name of length 0 leaves the value as it is.
    substitute : String → String → String × String → Result String
    substitute value front (name, suffix) = if str_eq name "" then ok value else elim (env name) [
      | some v ↦ ok (String.◌++◌ front (String.◌++◌ v suffix))
      | none ↦ err (var_error name)
    ]

    unfoldable pub resolve_header_value : String → Result String
    unfolding split_dollar split_name substitute
    resolve_header_value value = elim (split_dollar value) [
      | none ↦ ok value
      | some (front, after) ↦ substitute value front (split_name after)
    ]
