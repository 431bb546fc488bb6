-- ===== src/Config/Loader/Failed.antt =====
-- config/loader.rs: the errors of the checks of `load_config`.
use tls_proxy_tunnel.Base.{
  ◌≡◌, refl, inl, inr, ◌⊎◌, false, List, [], ◌∷◌, String, arith, is_one_of, Bool-cases,
}
use tls_proxy_tunnel.Config.Types.{BaseConfig}
use tls_proxy_tunnel.Config.Yaml.{BaseYaml}
use tls_proxy_tunnel.Config.Error.{
  ConfigError, yaml, custom, Result, ok, err, from_yaml, YamlError, YamlResult, yaml_ok, yaml_err,
  ◌>>=◌,
}
use tls_proxy_tunnel.Config.Loader.{
  is_supported, unsupported_version, invalid_log_format, text_or, check_version, check_log_format,
}

pub bind-err {ℓ κ} :
    {A : Type ℓ} {B : Type κ} (r : Result A) (k : A → Result B) {e : ConfigError}
    → (r >>= k) ≡ err e
    → (r ≡ err e) ⊎ ((x : A) × (r ≡ ok x) × (k x ≡ err e))
bind-err (ok x) k h = inr (x, refl, h)
bind-err (err x) k h = inl (cc)

abbrev pub log_format : BaseConfig → String
log_format base = text_or base.log_format "txt"

abbrev pub formats : List String
formats = "txt" ∷ "text" ∷ "json" ∷ []

pub from_yaml-err :
    (r : YamlResult BaseYaml) (e : ConfigError)
    → from_yaml r ≡ err e
    → (x : YamlError) × (r ≡ yaml_err x) × (yaml x ≡ e)
from_yaml-err (yaml_ok doc) e h = cc
from_yaml-err (yaml_err x) e h = (x, refl, ground arith)

pub from_yaml-ok :
    (r : YamlResult BaseYaml) (doc : BaseYaml) → from_yaml r ≡ ok doc → r ≡ yaml_ok doc
from_yaml-ok (yaml_ok doc') doc h = ground arith
from_yaml-ok (yaml_err x) doc h = cc

pub check_version-err :
    (base : BaseConfig) (e : ConfigError)
    → check_version base ≡ err e
    → (is_supported base.version ≡ false) × (custom (unsupported_version base.version) ≡ e)
unfolding check_version
check_version-err base e h = elim (Bool-cases (is_supported base.version)) [
  | inl good ↦ absurd (ground arith)
  | inr bad ↦ (bad, ground arith)
]

pub check_version-ok : (base base' : BaseConfig) → check_version base ≡ ok base' → base ≡ base'
unfolding check_version
check_version-ok base base' h = ground arith

pub check_log_format-err :
    (base : BaseConfig) (e : ConfigError)
    → check_log_format base ≡ err e
    → (is_one_of (log_format base) formats ≡ false)
      × (custom (invalid_log_format (log_format base)) ≡ e)
unfolding check_log_format
check_log_format-err base e h = elim (Bool-cases (is_one_of (log_format base) formats)) [
  | inl good ↦ absurd (ground arith)
  | inr bad ↦ (bad, ground arith)
]
