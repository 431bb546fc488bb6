-- ===== src/Cli/Served.antt =====
-- main.rs with config/loader.rs and servers/: from the command line to the handling of a
-- connection.
mod Examples
use mathlib.Core.List.{Memᴰ}
use tls_proxy_tunnel.Base.{
  ◌≡◌, ◌≢◌, ◌⊎◌, inl, inr, Bool, Option, none, some, List, Char, String, arith,
}
use tls_proxy_tunnel.Net.{SocketAddr, IoError, IoResult, io_ok}
use tls_proxy_tunnel.Config.Types.{Config}
use tls_proxy_tunnel.Config.Yaml.{BaseYaml}
use tls_proxy_tunnel.Config.Error.{Result, ok, err, YamlResult, yaml_ok, bind-ok}
use tls_proxy_tunnel.Config.Url.{Url}
use tls_proxy_tunnel.Config.Loader.{load_config, new}
use tls_proxy_tunnel.Config.Loader.Sound.{IsLoaded, load_config-IsLoaded}
use tls_proxy_tunnel.Upstreams.Failure.{Failure, ok as io_fine}
use tls_proxy_tunnel.Upstreams.Process.{World}
use tls_proxy_tunnel.Servers.Semaphores.{SemaphoreLib}
use tls_proxy_tunnel.Servers.Types.{Proxy, Server}
use tls_proxy_tunnel.Servers.Tls.{TlsParser}
use tls_proxy_tunnel.Servers.Builder.{from_config}
use tls_proxy_tunnel.Servers.Accept.{Inbound, Handled, handled, refused, read_snis, accept}
use tls_proxy_tunnel.Servers.Accept.Choices.{IsSocketError, IsHandled, accept-IsHandled}
use tls_proxy_tunnel.Cli.{
  Cli, help, run_with, parse_args, Search, found, tried, find_config, Outcome, serving, not_found,
  loaded, serve_from, searched, run_cli, run,
}
use tls_proxy_tunnel.Cli.Start.{Parsed-cases}

module _ (exists : String → Bool) (load : String → Result Config) where
  loaded-serving :
      (r : Result Config) (config : Config) → loaded exists load r ≡ serving config → r ≡ ok config
  unfolding loaded
  loaded-serving (ok c) config h = ground arith
  loaded-serving (err e) config h = absurd (cc)

  abbrev Loads : Config → Type 0
  Loads config = (path : String) × (load path ≡ ok config)

  not_found-ne-serving :
      (args paths : List String) (config : Config) → not_found args paths ≢ serving config
  unfolding not_found
  not_found-ne-serving args paths config h = ground arith

  searched-Loads :
      (args : List String) (s : Search) (config : Config)
      → searched exists load args s ≡ serving config
      → Loads config
  unfolding searched serve_from
  searched-Loads args (found path) config h = (path, loaded-serving (load path) config h)
  searched-Loads args (tried paths) config h = absurd (not_found-ne-serving args paths config h)

  run_cli-Loads :
      (args : List String) (tpt_config : Option String) (cli : Cli) (config : Config)
      → run_cli exists load args tpt_config cli ≡ serving config
      → Loads config
  unfolding run_cli serve_from
  run_cli-Loads args tpt_config help config h = absurd (cc)
  run_cli-Loads args tpt_config (run_with (some path)) config h =
      (path, loaded-serving (load path) config h)
  run_cli-Loads args tpt_config (run_with none) config h =
      searched-Loads args (find_config exists tpt_config) config h

  run-Loads :
      (args : List String) (tpt_config : Option String) (config : Config)
      → run exists load args tpt_config ≡ serving config
      → Loads config
  unfolding run
  run-Loads args tpt_config config h = elim (Parsed-cases (parse_args args)) [
    | inl (cli, e) ↦ run_cli-Loads args tpt_config cli config (rw (e, run) at h)
    | inr (text, e) ↦
        let other : Outcome.usage_error text ≡ serving config = (rw (e, run) at h) in absurd (cc)
  ]

module _ (read_file : String → IoResult String) (from_str : String → YamlResult BaseYaml)
    (parse_url : String → Option Url) (rust_log : Bool) where
  new-IsLoaded :
      (path : String) (config : Config)
      → new read_file from_str parse_url rust_log path ≡ ok config
      → (contents : String) × (doc : BaseYaml) × (read_file path ≡ io_ok contents)
        × (from_str contents ≡ yaml_ok doc)
        × IsLoaded doc config.base
  unfolding new
  new-IsLoaded path config h =
      let (r, e, h') = bind-ok (load_config read_file from_str parse_url rust_log path).1 _ h in
      let same : r.1 ≡ config.base = ground arith in
      rw (← same) (load_config-IsLoaded read_file from_str parse_url rust_log path r.0 r.1 e)

  module _ (exists : String → Bool) {Stream : Type 0} (is_alphanumeric : Char → Bool)
      (env : String → Option String) (show_io : IoError → String) where
    -- Whatever the command line, the environment and the file are, if the program starts to serve a
    -- configuration, then on each proxy of its server a connection is refused only for an error of
    -- `peer_addr`, which is called where an `info` line is logged, or of `peek`; otherwise it is
    -- processed by the upstream of the name that routing chose, which is in the map, with the
    -- override of the SNI entry or else the server's settings, and with the CONNECT target that
    -- these give.
    pub run-accept :
        (args : List String) (tpt_config : Option String) (config : Config) (lib : SemaphoreLib)
        (parse_addr : String → Option SocketAddr) (show_addr : SocketAddr → String)
        (server : Server) (semaphores : List lib.Semaphore) (p : Proxy) (parser : TlsParser)
        (inbound : Inbound) (w : World Stream)
        → run exists (new read_file from_str parse_url rust_log) args tpt_config ≡ serving config
        → from_config lib parse_addr show_addr config.base ≡ some (server, semaphores)
        → Memᴰ p server.proxies
        → ((e : Failure) × (accept is_alphanumeric env show_io parser p inbound w ≡ refused e)
            × IsSocketError p inbound e)
          ⊎ ((h : Handled) × (snis : List String) × (accept is_alphanumeric env show_io parser p
                  inbound w
                ≡ handled h)
              × (read_snis parser p inbound ≡ io_fine snis)
              × IsHandled is_alphanumeric env show_io p w snis h)
    run-accept args tpt_config config lib parse_addr show_addr server semaphores p parser inbound w
          started made m =
        let (path, e) =
          run-Loads exists (new read_file from_str parse_url rust_log) args tpt_config config
            started in
        let (contents, doc, _, _, l) = new-IsLoaded path config e in
        accept-IsHandled is_alphanumeric env show_io parser p inbound w lib parse_addr show_addr
          config.base server semaphores l.well_formed l.has_ban made m
