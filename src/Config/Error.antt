-- ===== src/Config/Error.antt =====
-- config/error.rs, and the results that carry such an error.
use Prim.Native.String
use tls_proxy_tunnel.Base.{String, Option, none, some}
use tls_proxy_tunnel.Base.Results.{Fallible}
pub use tls_proxy_tunnel.Base.Results.{ok, err, ◌>>=◌, Result-cases, bind-ok}
use tls_proxy_tunnel.Net.{IoError, IoResult, io_ok, io_err}

-- A YAML error is the message that its library gives.
pub record YamlError : Type 0 where
  pub message : String

pub data ConfigError : Type 0 where
  io : IoError → ConfigError
  yaml : YamlError → ConfigError
  custom : String → ConfigError

-- The display of an `io::Error` is a parameter.
unfoldable pub show_error : (IoError → String) → ConfigError → String
show_error show_io (io e) = String.◌++◌ "IO error: " (show_io e)
show_error show_io (yaml e) = String.◌++◌ "YAML parse error: " e.message
show_error show_io (custom msg) = msg

pub data Source : Type 0 where
  io_source : IoError → Source
  yaml_source : YamlError → Source

unfoldable pub source : ConfigError → Option Source
source (io e) = some (io_source e)
source (yaml e) = some (yaml_source e)
source (custom msg) = none

abbrev pub Result {ℓ} : Type ℓ → Type ℓ
Result A = Fallible ConfigError A

-- `?` on a result of the file system or of the YAML library.
abbrev pub from_io {ℓ} : {A : Type ℓ} → IoResult A → Result A
from_io (io_ok a) = ok a
from_io (io_err e) = err (io e)

pub data YamlResult {ℓ} (A : Type ℓ) : Type ℓ where
  yaml_ok : A → YamlResult A
  yaml_err : YamlError → YamlResult A

abbrev pub from_yaml {ℓ} : {A : Type ℓ} → YamlResult A → Result A
from_yaml (yaml_ok a) = ok a
from_yaml (yaml_err e) = err (yaml e)

abbrev pub or_fail {ℓ} : {A : Type ℓ} → Option A → String → Result A
or_fail none message = err (custom message)
or_fail (some a) message = ok a
