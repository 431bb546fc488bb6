-- ===== src/Cli.antt =====
-- main.rs: the command line, the search for the configuration file, and the start. The file system
-- and the environment are parameters; the texts that an outcome prints are in Cli.Messages.
pub mod Start
pub mod Served
pub mod Messages
pub mod Explained
mod Examples
use Prim.Native.String
use tls_proxy_tunnel.Base.{
  ℕ, ◌≡◌, Bool, true, false, ◌||◌, Option, none, some, List, [], ◌∷◌, ◌++◌, String, str_eq,
  if◌then◌else◌,
}
use tls_proxy_tunnel.Config.Types.{Config}
use tls_proxy_tunnel.Config.Error.{ConfigError, Result, ok, err}
use tls_proxy_tunnel.Net.{SocketAddr}
use tls_proxy_tunnel.Servers.Semaphores.{SemaphoreLib}
use tls_proxy_tunnel.Servers.Types.{Server}
use tls_proxy_tunnel.Servers.Builder.{from_config}

pub data Cli : Type 0 where
  help : Cli
  run_with : Option String → Cli

pub data Parsed : Type 0 where
  parsed : Cli → Parsed
  wrong : String → Parsed

any_help : List String → Bool
any_help [] = false
any_help (a ∷ rest) = (str_eq a "--help" || str_eq a "-h") || any_help rest

abbrev pub missing_path : String
missing_path = "--config requires a path argument"

abbrev pub unknown_argument : String → String
unknown_argument other = String.◌++◌ "Unknown argument: " other

config_argument : List String → Parsed
config_argument [] = wrong missing_path
config_argument (path ∷ rest) = parsed (run_with (some path))

match_first : List String → Parsed
unfolding config_argument
match_first [] = parsed (run_with none)
match_first (first ∷ rest) =
    if str_eq first "--config" || str_eq first "-c"
    then config_argument rest
    else wrong (unknown_argument first)

unfoldable pub parse_args : List String → Parsed
unfolding any_help match_first
parse_args args = if any_help args then parsed help else match_first args

-- `PathBuf::from(dir).join(file)`
join : String → String → String
join dir file = if str_eq dir "" then file else String.◌++◌ dir (String.◌++◌ "/" file)

files_in : String → List String
unfolding join
files_in dir = join dir "tpt.yaml" ∷ join dir "config.yaml" ∷ []

from_env : Option String → List String
from_env none = []
from_env (some path) = path ∷ []

unfoldable pub search_paths : Option String → List String
unfolding from_env files_in
search_paths tpt_config = from_env tpt_config ++ files_in "/etc/tpt" ++ files_in ""

pub data Search : Type 0 where
  found : String → Search
  tried : List String → Search

module _ (exists : String → Bool) where
  search : List String → List String → Search
  search tried_paths [] = tried tried_paths
  search tried_paths (path ∷ rest) =
      if exists path then found path else search (tried_paths ++ path ∷ []) rest

  unfoldable pub find_config : Option String → Search
  unfolding search search_paths
  find_config tpt_config = search [] (search_paths tpt_config)

-- What `run` comes to: one of its messages, or the server of a configuration.
pub data Outcome : Type 0 where
  helped : Outcome
  usage_error : String → Outcome
  could_not_find : List String → Outcome
  could_not_load : ConfigError → Outcome
  serving : Config → Outcome

module _ (lib : SemaphoreLib) (parse_addr : String → Option SocketAddr)
    (show_addr : SocketAddr → String) where
  open lib use {Semaphore}

  -- A panic of `Server::from` ends the program with 101. `Server::run` has no error, so that a
  -- server that has returned is a success.
  exit_of_server : Option (Server × List Semaphore) → ℕ
  exit_of_server none = 101
  exit_of_server (some server) = 0

  unfoldable pub exit_code : Outcome → ℕ
  unfolding exit_of_server
  exit_code helped = 0
  exit_code (usage_error text) = 1
  exit_code (could_not_find paths) = 1
  exit_code (could_not_load e) = 1
  exit_code (serving config) = exit_of_server (from_config lib parse_addr show_addr config.base)

is_empty : List String → Bool
is_empty [] = true
is_empty (a ∷ rest) = false

-- The arm of a configuration that was not found.
not_found : List String → List String → Outcome
unfolding is_empty
not_found args paths = if is_empty args then helped else could_not_find paths

module _ (exists : String → Bool) (load : String → Result Config) where
  loaded : Result Config → Outcome
  loaded (ok config) = serving config
  loaded (err e) = could_not_load e

  serve_from : String → Outcome
  unfolding loaded
  serve_from path = loaded (load path)

  searched : List String → Search → Outcome
  unfolding serve_from not_found
  searched args (found path) = serve_from path
  searched args (tried paths) = not_found args paths

  run_cli : List String → Option String → Cli → Outcome
  unfolding searched serve_from
  run_cli args tpt_config help = helped
  run_cli args tpt_config (run_with (some path)) = serve_from path
  run_cli args tpt_config (run_with none) = searched args (find_config exists tpt_config)

  unfoldable pub run : List String → Option String → Outcome
  unfolding parse_args run_cli find_config
  run args tpt_config = elim (parse_args args) [
    | wrong text ↦ usage_error text
    | parsed cli ↦ run_cli args tpt_config cli
  ]
