-- ===== src/Cli/Examples.antt =====
-- Tests of the command line, and its theorems at concrete inputs.
use tls_proxy_tunnel.Base.{
  ◌≡◌, ◌≢◌, refl, String, ◌⊎◌, Bool, none, some, false, [], ◌∷◌, All, str_eq, ◌||◌, ◌^◌,
}
use tls_proxy_tunnel.Config.Types.{ParsedConfig, Config}
use tls_proxy_tunnel.Config.Error.{Result, ok, err, custom, show_error}
use tls_proxy_tunnel.Cli.{
  help, run_with, parsed, wrong, missing_path, parse_args, search_paths, found, tried, find_config,
  helped, could_not_find, serving, exit_code, run,
}
use tls_proxy_tunnel.Net.{IoError}
use tls_proxy_tunnel.Servers.Semaphores.{counter}
use tls_proxy_tunnel.Servers.Builder.{from_config, build_servers, build_listens}
use tls_proxy_tunnel.Servers.Builder.Sample.{web, config, parse_addr, show_addr, builds}
use tls_proxy_tunnel.Cli.Messages.{complaint, printed}
use tls_proxy_tunnel.Cli.Explained.{IsRunOf, IsExit, run-IsRunOf}
use tls_proxy_tunnel.Cli.Start.{IsMissing, IsFirstPath, find_config-cases, run_never_lists_paths}

abbrev two_files : String → Bool
two_files path = str_eq path "/etc/tpt/config.yaml" || str_eq path "tpt.yaml"

abbrev no_files : String → Bool
no_files path = false

abbrev load : String → Result Config
load path = err (custom "broken")

searches_in_order : find_config two_files (some "/here.yaml") ≡ found "/etc/tpt/config.yaml"
unfolding find_config search_paths
searches_in_order = refl

tries_all :
    find_config no_files none
    ≡ tried ("/etc/tpt/tpt.yaml" ∷ "/etc/tpt/config.yaml" ∷ "tpt.yaml" ∷ "config.yaml" ∷ [])
unfolding find_config search_paths
tries_all = refl

needs_path : parse_args ("-c" ∷ []) ≡ wrong missing_path
unfolding parse_args
needs_path = refl

-- Help wins over everything, and what follows the path is not looked at.
help_first : parse_args ("-c" ∷ "x" ∷ "-h" ∷ []) ≡ parsed help
unfolding parse_args
help_first = refl

ignores_rest : parse_args ("-c" ∷ "x" ∷ "y" ∷ []) ≡ parsed (run_with (some "x"))
unfolding parse_args
ignores_rest = refl

helps_without_config : run no_files load [] none ≡ helped
unfolding run parse_args find_config search_paths
helps_without_config = refl

finds_first_or_none :
    ((path : String) × (find_config two_files none ≡ found path)
      × IsFirstPath two_files (search_paths none) path)
    ⊎ ((find_config two_files none ≡ tried (search_paths none))
        × All (IsMissing two_files) (search_paths none))
finds_first_or_none = find_config-cases two_files none

does_not_list_paths : run no_files load [] none ≢ could_not_find ("tpt.yaml" ∷ [])
does_not_list_paths = run_never_lists_paths no_files load [] none ("tpt.yaml" ∷ [])

abbrev show_io : IoError → String
show_io e = "an error"

abbrev whole : ParsedConfig → Config
whole base = record { base = base }

abbrev serve_config : String → Result Config
serve_config path = ok (whole config)

run-IsRunOf_example :
    let o = run no_files serve_config ("-c" ∷ "a.yaml" ∷ []) none in
    IsRunOf no_files serve_config none ("-c" ∷ "a.yaml" ∷ []) o
    × IsExit counter parse_addr show_addr
        (printed "4.0.0" show_io o)
        o
        (exit_code counter parse_addr show_addr o)
run-IsRunOf_example =
    run-IsRunOf no_files serve_config counter parse_addr show_addr "4.0.0" show_io
      ("-c" ∷ "a.yaml" ∷ []) none

-- A server that has returned is a success, and one that cannot be built a panic.
ends_in_success : exit_code counter parse_addr show_addr (serving (whole config)) ≡ 0
unfolding exit_code
ends_in_success = rw (builds, exit_code) refl

abbrev crowded : Config
crowded = whole (record config { servers = ("web", record web { maxclients = 2 ^ 61 }) ∷ [] })

ends_in_panic : exit_code counter parse_addr show_addr (serving crowded) ≡ 101
unfolding exit_code from_config build_servers build_listens
ends_in_panic = refl

prints_load_error :
    printed "4.0.0" show_io (run two_files load ("-c" ∷ "a.yaml" ∷ []) none)
    ≡ complaint "Could not load config: broken" ∷ []
unfolding printed run parse_args show_error
prints_load_error = refl
