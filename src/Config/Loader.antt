-- ===== src/Config/Loader.antt =====
-- config/loader.rs: `load_config` and `Config::new`. The file system, the YAML library, the `url`
-- crate and the environment are parameters.
pub mod Sound
pub mod Failed
pub mod Refused
mod Examples
use Prim.Native.String
use tls_proxy_tunnel.Base.{
  ℕ, ◌≡◌, refl, Bool, true, false, ◌||◌, Option, none, some, List, [], ◌∷◌, String, ◌==◌, str_eq,
  is_one_of, if◌then◌else◌, ℤ, pos, negsuc, show_int,
}
use tls_proxy_tunnel.Base.Dict.{Dict, insert}
use tls_proxy_tunnel.Net.{IoResult}
use tls_proxy_tunnel.Config.Types.{BaseConfig, ParsedConfig, Config}
use tls_proxy_tunnel.Config.Yaml.{BaseYaml, read_base}
use tls_proxy_tunnel.Config.Error.{Result, ok, err, custom, ◌>>=◌, from_io, from_yaml, YamlResult}
use tls_proxy_tunnel.Config.Url.{Url, try_from}
use tls_proxy_tunnel.Config.Verify.{verify_config}
use tls_proxy_tunnel.Upstreams.Types.{Upstream, ban, echo, health, proxy}

abbrev pub is_supported : ℤ → Bool
is_supported (pos n) = n == 1 || n == 2
is_supported (negsuc n) = false

abbrev pub unsupported_version : ℤ → String
unsupported_version version = String.◌++◌ "Unsupported config version " (show_int version)

abbrev pub invalid_log_format : String → String
invalid_log_format other =
    String.◌++◌ "Invalid log-format '" (String.◌++◌ other "': must be 'txt', 'text' or 'json'")

abbrev pub text_or : Option String → String → String
text_or none d = d
text_or (some s) d = s

-- How the logger is set up: the filter of the configuration, unless `RUST_LOG` gives one, and the
-- line format.
pub record LogSetup : Type 0 where
  pub filters : Option String
  pub json : Bool

-- The closure of the JSON format; `json_string` is the display of `serde_json::Value::String`.
unfoldable pub json_line : (json_string : String → String) (ts level target args : String) → String
json_line json_string ts level target args = String.◌++◌ "{\"ts\":\"" (
    String.◌++◌ ts (
      String.◌++◌ "\",\"level\":\"" (
        String.◌++◌ level (
          String.◌++◌ "\",\"target\":\"" (
            String.◌++◌ target (String.◌++◌ "\",\"msg\":" (String.◌++◌ (json_string args) "}")))))))

log_setup : Bool → BaseConfig → Option LogSetup
log_setup rust_log base =
    let level = text_or base.log "info" in
    let format = text_or base.log_format "txt" in
    if str_eq level "disable"
    then none
    else some
        (record { filters = if rust_log then none else some level; json = str_eq format "json" })

pub check_version : BaseConfig → Result BaseConfig
check_version base =
    if is_supported base.version then ok base else err (custom (unsupported_version base.version))

pub check_log_format : BaseConfig → Result BaseConfig
check_log_format base =
    let format = text_or base.log_format "txt" in
    if is_one_of format ("txt" ∷ "text" ∷ "json" ∷ [])
    then ok base
    else err (custom (invalid_log_format format))

-- The map that the upstreams of the file are inserted into.
abbrev pub builtin_upstreams : Dict Upstream
builtin_upstreams = ("ban", ban) ∷ ("echo", echo) ∷ ("health", health []) ∷ []

module _ (parse_url : String → Option Url) where
  unfoldable pub insert_upstreams : Dict String → Dict Upstream → Result (Dict Upstream)
  insert_upstreams [] m = ok m
  insert_upstreams ((name, url) ∷ rest) m = do
    p ← try_from parse_url url
    insert_upstreams rest (insert m name (proxy p))

  -- The part after the logger is set up; it returns the warnings of `verify_config` too.
  finish : BaseConfig → Result (List String × ParsedConfig)
  unfolding insert_upstreams
  finish base = do
    upstream ← insert_upstreams base.upstream builtin_upstreams
    verify_config (record {
      version = base.version;
      log = base.log;
      servers = base.servers;
      upstream = upstream;
    })

module _ (read_file : String → IoResult String) (from_str : String → YamlResult BaseYaml)
    (parse_url : String → Option Url) (rust_log : Bool) where
  pub read_checked : String → Result BaseConfig
  unfolding check_version check_log_format
  read_checked path = do
    contents ← from_io (read_file path)
    doc ← from_yaml (from_str contents)
    base ← check_version (read_base doc)
    check_log_format base

  -- The set-up of the logger, which happens also when a later step fails, and the result.
  unfoldable pub load_config : String → Option LogSetup × Result (List String × ParsedConfig)
  unfolding read_checked log_setup finish
  load_config path = elim (read_checked path) [
    | ok base ↦ (log_setup rust_log base, finish parse_url base)
    | err e ↦ (none, err e)
  ]

  -- `Config::new`
  unfoldable pub new : String → Result Config
  unfolding load_config
  new path = do loaded ← (load_config path).1; ok (record { base = loaded.1 })
