-- ===== src/Upstreams/Header/Resolved.antt =====
-- upstreams/proxy_to_upstream/http.rs, `resolve_header_value`, by the shape of the value.
use Prim.Native.String
use Prim.Native.String.{◌++◌}
use text.Mathlib.TextLemmas.{nil-append, cons-append}
use tls_proxy_tunnel.Base.{
  ◌≡◌, refl, ap, Bool, true, false, Option, none, some, Char, code, String, ◌==◌, str_eq,
  if◌then◌else◌,
}
use tls_proxy_tunnel.Upstreams.Failure.{Result, ok, err, var_error}
use tls_proxy_tunnel.Upstreams.Header.{
  split_dollar, is_name_char, split_name, substitute, resolve_header_value,
}

-- A property of every character of a text.
abbrev pub AllChars : (Char → Type 0) → String → Type 0
AllChars P String.[] = Unit
AllChars P (String.◌∷◌ c s) = P c × AllChars P s

abbrev pub NoDollar : String → Type 0
NoDollar = AllChars (λ c. (code c == b'$') ≡ false)

split_dollar-none : (s : String) → NoDollar s → split_dollar s ≡ none
unfolding split_dollar
split_dollar-none String.[] h = refl
split_dollar-none (String.◌∷◌ c s) h = rw (h.0, split_dollar-none s h.1) refl

split_dollar-some :
    (front rest : String)
    → NoDollar front
    → split_dollar (String.◌++◌ front (String.◌++◌ "$" rest)) ≡ some (front, rest)
unfolding split_dollar
split_dollar-some String.[] rest h = rw (nil-append, cons-append, nil-append) refl
split_dollar-some (String.◌∷◌ c s) rest h =
    rw (cons-append c s (String.◌++◌ "$" rest)) (rw (h.0, split_dollar-some s rest h.1) refl)

module _ (is_alphanumeric : Char → Bool) where
  abbrev pub IsName : String → Type 0
  IsName = AllChars (λ c. is_name_char is_alphanumeric c ≡ true)

  -- A text that does not go on with a name.
  abbrev pub EndsName : String → Type 0
  EndsName String.[] = Unit
  EndsName (String.◌∷◌ c s) = is_name_char is_alphanumeric c ≡ false

  split_name_lem :
      (name suffix : String)
      → IsName name
      → EndsName suffix
      → split_name is_alphanumeric (String.◌++◌ name suffix) ≡ (name, suffix)
  unfolding split_name
  split_name_lem String.[] String.[] h e = refl
  split_name_lem String.[] (String.◌∷◌ c s) h e = rw (nil-append, e) refl
  split_name_lem (String.◌∷◌ c name) suffix h e =
      rw (cons-append c name suffix) (rw (h.0, split_name_lem name suffix h.1 e) refl)

  module _ (env : String → Option String) where
    -- A value with no `$` is sent as it is.
    resolve_header_value_plain :
        (value : String)
        → NoDollar value
        → resolve_header_value is_alphanumeric env value ≡ ok value
    unfolding resolve_header_value
    resolve_header_value_plain value h = rw (split_dollar-none value h, resolve_header_value) refl

    abbrev pub resolved : String → String → String → Result String
    resolved front name suffix = elim (env name) [
      | some v ↦ ok (String.◌++◌ front (String.◌++◌ v suffix))
      | none ↦ err (var_error name)
    ]

    -- In a value with a `$` the first one counts: if the longest name behind it is empty, the value
    -- is sent as it is; otherwise the `$` and the name are replaced by the variable's value, or a
    -- variable that is not set is the error; what follows the name is kept.
    pub resolve_header_value_lem :
        (front name suffix : String)
        → NoDollar front
        → IsName name
        → EndsName suffix
        → let value = String.◌++◌ front (String.◌++◌ "$" (String.◌++◌ name suffix)) in
          resolve_header_value is_alphanumeric env value
          ≡ (if str_eq name "" then ok value else resolved front name suffix)
    unfolding resolve_header_value
    resolve_header_value_lem front name suffix h n e =
        rw (split_dollar-some front (String.◌++◌ name suffix) h, resolve_header_value)
          (ap (substitute is_alphanumeric env _ front) (split_name_lem name suffix n e))
