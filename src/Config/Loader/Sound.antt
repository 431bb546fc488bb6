-- ===== src/Config/Loader/Sound.antt =====
-- config/loader.rs: `load_config` where it succeeds.
use tls_proxy_tunnel.Base.{
  ◌≡◌, refl, ◌∙◌, Bool, true, false, Option, some, List, [], ◌∷◌, String, arith, str_eq, eq_iff,
  Distinct, contains, Bool-cases, inl, inr,
}
use tls_proxy_tunnel.Base.Dict.{
  Dict, get, insert, keys, contains_key, get-insert, contains_key-insert,
}
use tls_proxy_tunnel.Net.{IoResult, io_ok}
use tls_proxy_tunnel.Config.Types.{BaseConfig, ParsedConfig}
use tls_proxy_tunnel.Config.Yaml.{BaseYaml, read_base}
use tls_proxy_tunnel.Config.Error.{
  Result, ok, err, from_io, from_yaml, YamlResult, yaml_ok, bind-ok, Result-cases,
}
use tls_proxy_tunnel.Config.Url.{Url, try_from}
use tls_proxy_tunnel.Config.Verify.Accepts.{IsWellFormed, verify_config-IsWellFormed}
use tls_proxy_tunnel.Config.Verify.Sets.{IsDefined}
use tls_proxy_tunnel.Upstreams.Types.{Upstream, ProxyToUpstream, proxy}
use tls_proxy_tunnel.Config.Loader.{
  is_supported, check_version, check_log_format, builtin_upstreams, insert_upstreams, finish,
  read_checked, load_config,
}

module _ (parse_url : String → Option Url) where
  pub get-insert_upstreams_absent :
      (urls : Dict String) (m m' : Dict Upstream) (k : String)
      → insert_upstreams parse_url urls m ≡ ok m'
      → contains (keys urls) k ≡ false
      → get m' k ≡ get m k
  unfolding insert_upstreams contains
  get-insert_upstreams_absent [] m m' k h c = ground arith
  get-insert_upstreams_absent ((name, url) ∷ rest) m m' k h c =
      let (p, _, h') = bind-ok (try_from parse_url url) _ h in
      ground (
        arith,
        get-insert_upstreams_absent rest (insert m name (proxy p)) m' k h',
        get-insert m name k (proxy p),
      )

  -- If the names of the `upstream` mapping are distinct and all its URLs are accepted, each of its
  -- entries is in the upstream map as the proxy that its URL stands for, also under a built-in
  -- name.
  pub get-insert_upstreams :
      (urls : Dict String) (m m' : Dict Upstream) (k url : String)
      → Distinct (keys urls)
      → insert_upstreams parse_url urls m ≡ ok m'
      → get urls k ≡ some url
      → (p : ProxyToUpstream) × (try_from parse_url url ≡ ok p) × (get m' k ≡ some (proxy p))
  unfolding insert_upstreams get
  get-insert_upstreams [] m m' k url d h e = cc
  get-insert_upstreams ((name, u) ∷ rest) m m' k url (fresh, d) h e =
      let (p, parsed, h') = bind-ok (try_from parse_url u) _ h in
      elim (Bool-cases (str_eq name k)) [
        | inl same ↦ (
          p,
          ground arith,
          ground (
            arith,
            eq_iff name k,
            get-insert_upstreams_absent rest (insert m name (proxy p)) m' k h',
            get-insert m name k (proxy p),
          ),
        )
        | inr differ ↦
            get-insert_upstreams rest (insert m name (proxy p)) m' k url d h' (ground arith)
      ]

  -- An insertion keeps the names that are there.
  insert_upstreams-IsDefined :
      (urls : Dict String) (m m' : Dict Upstream) (k : String)
      → insert_upstreams parse_url urls m ≡ ok m'
      → IsDefined m k
      → IsDefined m' k
  unfolding insert_upstreams
  insert_upstreams-IsDefined [] m m' k h d = ground arith
  insert_upstreams-IsDefined ((name, url) ∷ rest) m m' k h d =
      let (p, _, h') = bind-ok (try_from parse_url url) _ h in
      insert_upstreams-IsDefined rest (insert m name (proxy p)) m' k h'
        (ground (arith, contains_key-insert m name k (proxy p)))

check_version-eq :
    (base base' : BaseConfig)
    → check_version base ≡ ok base'
    → (base' ≡ base) × (is_supported base.version ≡ true)
unfolding check_version
check_version-eq base base' h = elim (Bool-cases (is_supported base.version)) [
  | inl e ↦ (ground arith, e)
  | inr e ↦ ground arith
]

check_log_format-eq : (base base' : BaseConfig) → check_log_format base ≡ ok base' → base' ≡ base
unfolding check_log_format
check_log_format-eq base base' h = ground arith

-- A configuration that the program runs with.
pub record IsLoaded (doc : BaseYaml) (config : ParsedConfig) : Type 0 where
  pub well_formed : IsWellFormed config
  pub supported : is_supported config.version ≡ true
  pub servers_kept : config.servers ≡ (read_base doc).servers
  pub has_ban : IsDefined config.upstream "ban"
  pub has_echo : IsDefined config.upstream "echo"
  pub has_health : IsDefined config.upstream "health"

finish-IsLoaded :
    (parse_url : String → Option Url) (doc : BaseYaml) (warned : List String)
    (config : ParsedConfig)
    → is_supported (read_base doc).version ≡ true
    → finish parse_url (read_base doc) ≡ ok (warned, config)
    → IsLoaded doc config
unfolding finish contains_key get
finish-IsLoaded parse_url doc warned config supported h =
    let base = read_base doc in
    let (m, e, h') = bind-ok (insert_upstreams parse_url base.upstream builtin_upstreams) _ h in
    let (well_formed, same) = verify_config-IsWellFormed _ (warned, config) h' in
    let defined =
      λ (k : String). insert_upstreams-IsDefined parse_url base.upstream builtin_upstreams m k e in
    rw same (record {
      well_formed = well_formed;
      supported = supported;
      servers_kept = refl;
      has_ban = defined "ban" refl;
      has_echo = defined "echo" refl;
      has_health = defined "health" refl;
    })

module _ (read_file : String → IoResult String) (from_str : String → YamlResult BaseYaml)
    (parse_url : String → Option Url) (rust_log : Bool) where
  pub read_checked_sound :
      (path : String) (base : BaseConfig)
      → read_checked read_file from_str parse_url rust_log path ≡ ok base
      → (contents : String) × (doc : BaseYaml) × (read_file path ≡ io_ok contents)
        × (from_str contents ≡ yaml_ok doc)
        × (base ≡ read_base doc)
        × (is_supported (read_base doc).version ≡ true)
  unfolding read_checked
  read_checked_sound path base h =
      let (contents, e₁, h₁) = bind-ok (from_io (read_file path)) _ h in
      let (doc, e₂, h₂) = bind-ok (from_yaml (from_str contents)) _ h₁ in
      let (base', e₃, h₃) = bind-ok (check_version (read_base doc)) _ h₂ in
      let (same, supported) = check_version-eq (read_base doc) base' e₃ in
      (
        contents,
        doc,
        ground arith,
        ground arith,
        check_log_format-eq base' base h₃ ∙ same,
        supported,
      )

  -- A configuration that `load_config` accepts was read from the file and parsed; it is
  -- well-formed, has version 1 or 2, the document's servers with the defaults of absent keys, and
  -- the upstreams `ban`, `echo` and `health`.
  pub load_config-IsLoaded :
      (path : String) (warned : List String) (config : ParsedConfig)
      → (load_config read_file from_str parse_url rust_log path).1 ≡ ok (warned, config)
      → (contents : String) × (doc : BaseYaml) × (read_file path ≡ io_ok contents)
        × (from_str contents ≡ yaml_ok doc)
        × IsLoaded doc config
  unfolding load_config
  load_config-IsLoaded path warned config h =
      elim (Result-cases (read_checked read_file from_str parse_url rust_log path)) [
        | inl (base, e) ↦
            let (contents, doc, e₁, e₂, same, supported) = read_checked_sound path base e in
            let done : finish parse_url base ≡ ok (warned, config) = (rw (e, load_config) at h) in
            (
              contents,
              doc,
              e₁,
              e₂,
              finish-IsLoaded parse_url doc warned config supported (rw same at done),
            )
        | inr (x, e) ↦
            let failed : ◌≡◌ {A = Result (List String × ParsedConfig)} (err x)
                (ok (warned, config)) =
              (rw (e, load_config) at h) in
            absurd (cc)
      ]
