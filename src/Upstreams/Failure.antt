-- ===== src/Upstreams/Failure.antt =====
-- The errors of a connection, as `Box<dyn Error>` carries them, and results with them.
use Prim.Native.String
use tls_proxy_tunnel.Base.{String}
use tls_proxy_tunnel.Base.Results.{Fallible}
pub use tls_proxy_tunnel.Base.Results.{ok, err, ◌>>=◌, Result-cases, bind-ok}
use tls_proxy_tunnel.Net.{IoError}

pub data Failure : Type 0 where
  -- `ProxyError(message)` of upstreams/proxy_to_upstream/mod.rs
  proxy_error : String → Failure
  io_error : IoError → Failure
  -- `VarError` of an environment variable
  var_error : String → Failure
  -- a message alone
  message : String → Failure

-- `Display for ProxyError`
unfoldable pub show_proxy_error : String → String
show_proxy_error text = String.◌++◌ "proxy error: " text

abbrev pub Result {ℓ} : Type ℓ → Type ℓ
Result A = Fallible Failure A
