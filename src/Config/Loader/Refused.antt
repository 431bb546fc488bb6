-- ===== src/Config/Loader/Refused.antt =====
-- config/loader.rs: `load_config` where it fails, by the check that fails first.
use mathlib.Core.List.{Memᴰ}
use tls_proxy_tunnel.Base.{
  ◌≡◌, refl, sym, subst, ◌∙◌, inl, inr, Bool, false, Option, List, [], ◌∷◌, String, arith,
  is_one_of,
}
use tls_proxy_tunnel.Base.Dict.{Dict, insert}
use tls_proxy_tunnel.Net.{IoError, IoResult, io_ok, io_err, IoResult-cases}
use tls_proxy_tunnel.Config.Types.{BaseConfig, ParsedConfig}
use tls_proxy_tunnel.Config.Yaml.{BaseYaml, read_base}
use tls_proxy_tunnel.Config.Error.{
  ConfigError, io, yaml, custom, Result, ok, err, from_io, from_yaml, YamlError, YamlResult,
  yaml_ok, yaml_err, Result-cases, ◌>>=◌,
}
use tls_proxy_tunnel.Config.Url.{Url, try_from}
use tls_proxy_tunnel.Config.Verify.{verify_config}
use tls_proxy_tunnel.Config.Verify.Accepts.{IsWellFormed, verify_config_iff}
use tls_proxy_tunnel.Config.Loader.Sound.{read_checked_sound}
use tls_proxy_tunnel.Upstreams.Types.{Upstream, proxy}
use tls_proxy_tunnel.Config.Loader.{
  is_supported, unsupported_version, invalid_log_format, check_version, check_log_format,
  builtin_upstreams, insert_upstreams, finish, read_checked, load_config,
}
use tls_proxy_tunnel.Config.Loader.Failed.{
  bind-err, log_format, formats, from_yaml-err, from_yaml-ok, check_version-err, check_version-ok,
  check_log_format-err,
}

module _ (read_file : String → IoResult String) (from_str : String → YamlResult BaseYaml)
    (parse_url : String → Option Url) where
  -- The document of a file.
  pub record IsRead (path : String) (doc : BaseYaml) : Type 0 where
    pub contents : String
    pub file : read_file path ≡ io_ok contents
    pub text : from_str contents ≡ yaml_ok doc

  pub data IsRefusal (path : String) : ConfigError → Type 0 where
    unreadable : (x : IoError) → read_file path ≡ io_err x → IsRefusal path (io x)
    unparsable :
        (contents : String) (x : YamlError)
        → read_file path ≡ io_ok contents
        → from_str contents ≡ yaml_err x
        → IsRefusal path (yaml x)
    bad_version :
        (doc : BaseYaml)
        → IsRead path doc
        → is_supported doc.version ≡ false
        → IsRefusal path (custom (unsupported_version doc.version))
    bad_log_format :
        (doc : BaseYaml)
        → IsRead path doc
        → is_one_of (log_format (read_base doc)) formats ≡ false
        → IsRefusal path (custom (invalid_log_format (log_format (read_base doc))))
    bad_upstream :
        (doc : BaseYaml) (name url : String) {e : ConfigError}
        → IsRead path doc
        → Memᴰ (name, url) (read_base doc).upstream
        → try_from parse_url url ≡ err e
        → IsRefusal path e
    ill_formed :
        (doc : BaseYaml) (config : ParsedConfig) {e : ConfigError}
        → IsRead path doc
        → config.servers ≡ (read_base doc).servers
        → insert_upstreams parse_url (read_base doc).upstream builtin_upstreams ≡ ok config.upstream
        → (IsWellFormed config → ⊥)
        → IsRefusal path e

  insert_upstreams-err :
      (urls : Dict String) (m : Dict Upstream) (e : ConfigError)
      → insert_upstreams parse_url urls m ≡ err e
      → (name : String) × (url : String) × Memᴰ (name, url) urls × (try_from parse_url url ≡ err e)
  unfolding insert_upstreams
  insert_upstreams-err [] m e h = absurd (cc)
  insert_upstreams-err ((name, url) ∷ rest) m e h = elim (bind-err (try_from parse_url url) _ h) [
    | inl here ↦ (name, url, Memᴰ.head refl, here)
    | inr (p, _, later) ↦
        let (n, u, m', bad) = insert_upstreams-err rest (insert m name (proxy p)) e later in
        (n, u, Memᴰ.tail m', bad)
  ]

  verify_config-err :
      (config : ParsedConfig) (e : ConfigError)
      → verify_config config ≡ err e
      → IsWellFormed config
      → ⊥
  verify_config-err config e h w =
      let (warned, good) = (verify_config_iff config).1 w in
      let both : ◌≡◌ {A = Result (List String × ParsedConfig)} (ok (warned, config)) (err e) =
        sym good ∙ h in
      cc

  finish-err :
      (path : String) (doc : BaseYaml) (e : ConfigError)
      → IsRead path doc
      → finish parse_url (read_base doc) ≡ err e
      → IsRefusal path e
  unfolding finish
  finish-err path doc e r h =
      elim (bind-err (insert_upstreams parse_url (read_base doc).upstream builtin_upstreams) _ h) [
        | inl bad ↦
            let (name, url, m, x) =
              insert_upstreams-err (read_base doc).upstream builtin_upstreams e bad in
            bad_upstream doc name url r m x
        | inr (m, good, v) ↦ ill_formed doc _ r refl good (verify_config-err _ e v)
      ]

  -- The checks of a text.
  checked_from : String → Result BaseConfig
  checked_from contents = do
    doc ← from_yaml (from_str contents)
    base ← check_version (read_base doc)
    check_log_format base

  parse_checked :
      (path contents : String) (e : ConfigError)
      → read_file path ≡ io_ok contents
      → checked_from contents ≡ err e
      → IsRefusal path e
  unfolding checked_from read_base
  parse_checked path contents e file h = elim (bind-err (from_yaml (from_str contents)) _ h) [
    | inl bad ↦
        let (x, text, same) = from_yaml-err (from_str contents) e bad in
        subst (IsRefusal path) same (unparsable contents x file text)
    | inr (doc, good, h₁) ↦
        let text = from_yaml-ok (from_str contents) doc good in
        let r : IsRead path doc = record { contents = contents; file = file; text = text } in
        elim (bind-err (check_version (read_base doc)) _ h₁) [
          | inl bad ↦
              let (old, same) = check_version-err (read_base doc) e bad in
              subst (IsRefusal path) same (bad_version doc r old)
          | inr (base, same, bad) ↦
              let kept = check_version-ok (read_base doc) base same in
              let (odd, same') =
                check_log_format-err (read_base doc) e
                  (subst (λ b. check_log_format b ≡ err e) (sym kept) bad) in
              subst (IsRefusal path) same' (bad_log_format doc r odd)
        ]
  ]

  read_checked-err :
      (rust_log : Bool) (path : String) (e : ConfigError)
      → read_checked read_file from_str parse_url rust_log path ≡ err e
      → IsRefusal path e
  unfolding read_checked checked_from
  read_checked-err rust_log path e h = elim (IoResult-cases (read_file path)) [
    | inr (x, file) ↦ elim (bind-err (from_io (read_file path)) _ h) [
      | inl bad ↦
          let same : io x ≡ e = ground arith in subst (IsRefusal path) same (unreadable x file)
      | inr (c, good, _) ↦ absurd (ground arith)
    ]
    | inl (contents, file) ↦ elim (bind-err (from_io (read_file path)) _ h) [
      | inl bad ↦ absurd (ground arith)
      | inr (c, good, h') ↦
          let same : c ≡ contents = ground arith in
          parse_checked path contents e file (subst (λ t. checked_from t ≡ err e) same h')
    ]
  ]

  -- When `load_config` fails, the error is that of the file, of the YAML parser, of a version other
  -- than 1 and 2, of a log format other than `txt`, `text` and `json`, or of the URL of an upstream
  -- in the document; or the document was read, all its upstreams were accepted, and the
  -- configuration with them is not well-formed.
  pub load_config-IsRefusal :
      (rust_log : Bool) (path : String) (e : ConfigError)
      → (load_config read_file from_str parse_url rust_log path).1 ≡ err e
      → IsRefusal path e
  unfolding load_config
  load_config-IsRefusal rust_log path e h =
      elim (Result-cases (read_checked read_file from_str parse_url rust_log path)) [
        | inr (x, bad) ↦
            let same : ◌≡◌ {A = Result (List String × ParsedConfig)} (err x) (err e) =
              (rw (bad, load_config) at h) in
            let plain : x ≡ e = ground arith in
            subst (IsRefusal path) plain (read_checked-err rust_log path x bad)
        | inl (base, good) ↦
            let (contents, doc, file, text, same, _) =
              read_checked_sound read_file from_str parse_url rust_log path base good in
            let failed : finish parse_url base ≡ err e = (rw (good, load_config) at h) in
            finish-err path doc e (record { contents = contents; file = file; text = text })
              (subst (λ b. finish parse_url b ≡ err e) same failed)
      ]
