-- ===== src/Cli/Explained.antt =====
-- main.rs, `run` and `main`: what every command line comes to.
use mathlib.Core.List.{Memᴰ}
use tls_proxy_tunnel.Base.{
  ◌≡◌, refl, ◌⊎◌, inl, inr, Bool, true, false, Option, List, [], ◌∷◌, String, arith, All,
  Bool-cases, str_eq, ◌||◌, Option-cases, ℕ,
}
use tls_proxy_tunnel.Net.{IoError, SocketAddr}
use tls_proxy_tunnel.Config.Types.{Config}
use tls_proxy_tunnel.Config.Error.{ConfigError, Result, ok, err}
use tls_proxy_tunnel.Cli.{
  any_help, config_argument, match_first, parse_args, missing_path, unknown_argument, search_paths,
  find_config, Outcome, helped, usage_error, could_not_find, could_not_load, serving, exit_code,
  exit_of_server, not_found, is_empty, loaded, serve_from, searched, run_cli, run,
}
use tls_proxy_tunnel.Cli.Messages.{Printed, printed, complains}
use tls_proxy_tunnel.Servers.Semaphores.{SemaphoreLib}
use tls_proxy_tunnel.Servers.Builder.{from_config}
use tls_proxy_tunnel.Servers.Builder.Settings.{all_listeners}
use tls_proxy_tunnel.Servers.Builder.Total.{Fits, from_config_iff}
use tls_proxy_tunnel.Cli.Start.{IsMissing, IsFirstPath, find_config-cases}

abbrev pub asks_help : String → Bool
asks_help a = str_eq a "--help" || str_eq a "-h"

abbrev pub takes_path : String → Bool
takes_path a = str_eq a "--config" || str_eq a "-c"

abbrev pub IsNoHelp : String → Type 0
IsNoHelp a = asks_help a ≡ false

module _ (exists : String → Bool) (load : String → Result Config) where
  -- What comes of the file at a path.
  pub data IsLoadOf (path : String) : Outcome → Type 0 where
    accepts : (config : Config) → load path ≡ ok config → IsLoadOf path (serving config)
    rejects : (e : ConfigError) → load path ≡ err e → IsLoadOf path (could_not_load e)

  -- What a command line stands for.
  pub data IsRunOf (tpt_config : Option String) : List String → Outcome → Type 0 where
    help_asked :
        {args : List String} (a : String)
        → Memᴰ a args
        → asks_help a ≡ true
        → IsRunOf tpt_config args helped
    path_given :
        {args : List String} {o : Outcome} (flag path : String) (rest : List String)
        → args ≡ flag ∷ path ∷ rest
        → All IsNoHelp args
        → takes_path flag ≡ true
        → IsLoadOf path o
        → IsRunOf tpt_config args o
    path_missing :
        {args : List String} (flag : String)
        → args ≡ flag ∷ []
        → takes_path flag ≡ true
        → IsRunOf tpt_config args (usage_error missing_path)
    unknown :
        {args : List String} (a : String) (rest : List String)
        → args ≡ a ∷ rest
        → All IsNoHelp args
        → takes_path a ≡ false
        → IsRunOf tpt_config args (usage_error (unknown_argument a))
    first_found :
        {args : List String} {o : Outcome} (path : String)
        → args ≡ []
        → IsFirstPath exists (search_paths tpt_config) path
        → IsLoadOf path o
        → IsRunOf tpt_config args o
    none_found :
        {args : List String}
        → args ≡ []
        → All (IsMissing exists) (search_paths tpt_config)
        → IsRunOf tpt_config args helped

any_help-cases :
    (args : List String)
    → ((a : String) × Memᴰ a args × (asks_help a ≡ true) × (any_help args ≡ true))
      ⊎ (All IsNoHelp args × (any_help args ≡ false))
unfolding any_help
any_help-cases [] = inr (tt, refl)
any_help-cases (a ∷ rest) = elim (Bool-cases (asks_help a)) [
  | inl e ↦ inl (a, Memᴰ.head refl, e, ground arith)
  | inr e ↦ elim (any_help-cases rest) [
    | inl (b, m, asks, h) ↦ inl (b, Memᴰ.tail m, asks, ground arith)
    | inr (all, h) ↦ inr ((e, all), ground arith)
  ]
]

module _ (lib : SemaphoreLib) (parse_addr : String → Option SocketAddr)
    (show_addr : SocketAddr → String) where
  -- Each listener of the configuration has a limit that a semaphore can have.
  abbrev pub CanServe : Config → Type 0
  CanServe config = All (Fits lib) (all_listeners parse_addr config.base.servers)

  -- With which code the program ends, once the server of an outcome that serves has returned.
  pub data IsExit (texts : List Printed) : Outcome → ℕ → Type 0 where
    showed_help : complains texts ≡ false → IsExit texts helped 0
    complained : {o : Outcome} → complains texts ≡ true → IsExit texts o 1
    returned :
        (config : Config)
        → complains texts ≡ false
        → CanServe config
        → IsExit texts (serving config) 0
    panicked :
        (config : Config)
        → complains texts ≡ false
        → ¬ CanServe config
        → IsExit texts (serving config) 101

  exit_code-IsExit :
      (version : String) (show_io : IoError → String) (o : Outcome)
      → IsExit (printed version show_io o) o (exit_code lib parse_addr show_addr o)
  unfolding exit_code complains printed exit_of_server
  exit_code-IsExit version show_io helped = showed_help refl
  exit_code-IsExit version show_io (usage_error text) = complained refl
  exit_code-IsExit version show_io (could_not_find paths) = complained refl
  exit_code-IsExit version show_io (could_not_load e) = complained refl
  exit_code-IsExit version show_io (serving config) =
      let (fits, builds) = from_config_iff lib parse_addr show_addr config.base in
      elim (Option-cases (from_config lib parse_addr show_addr config.base)) [
        | inl e ↦
            rw (e, exit_code) (panicked config refl (λ can. let (server, made) = builds can in cc))
        | inr (server, e) ↦ rw (e, exit_code) (returned config refl (fits (server, e)))
      ]

module _ (exists : String → Bool) (load : String → Result Config) where
  loaded-IsLoadOf :
      (path : String) (r : Result Config)
      → load path ≡ r
      → IsLoadOf exists load path (loaded exists load r)
  unfolding loaded
  loaded-IsLoadOf path (ok config) e = accepts config e
  loaded-IsLoadOf path (err x) e = rejects x e

  serve_from-IsLoadOf : (path : String) → IsLoadOf exists load path (serve_from exists load path)
  unfolding serve_from
  serve_from-IsLoadOf path = loaded-IsLoadOf path (load path) refl

  -- The arm of `find_config` without arguments.
  searched-IsRunOf :
      (tpt_config : Option String)
      → IsRunOf exists load tpt_config [] (searched exists load [] (find_config exists tpt_config))
  unfolding searched not_found is_empty
  searched-IsRunOf tpt_config = elim (find_config-cases exists tpt_config) [
    | inl (path, e, first) ↦
        rw (e, searched) (first_found path refl first (serve_from-IsLoadOf path))
    | inr (e, missing) ↦ rw (e, searched) (none_found refl missing)
  ]

  -- The arguments are looked at from the first one on, after none of them has asked for help.
  match_first-IsRunOf :
      (args : List String) (tpt_config : Option String)
      → All IsNoHelp args
      → any_help args ≡ false
      → IsRunOf exists load tpt_config args (run exists load args tpt_config)
  unfolding run parse_args match_first config_argument run_cli
  match_first-IsRunOf [] tpt_config all none_asks = searched-IsRunOf tpt_config
  match_first-IsRunOf (a ∷ []) tpt_config all none_asks = elim (Bool-cases (takes_path a)) [
    | inl takes ↦ rw (none_asks, run) (rw (takes, run) (path_missing a refl takes))
    | inr other ↦ rw (none_asks, run) (rw (other, run) (unknown a [] refl all other))
  ]
  match_first-IsRunOf (a ∷ path ∷ rest) tpt_config all none_asks =
      elim (Bool-cases (takes_path a)) [
        | inl takes ↦
            rw (none_asks, run)
              (rw (takes, run) (path_given a path rest refl all takes (serve_from-IsLoadOf path)))
        | inr other ↦ rw (none_asks, run) (rw (other, run) (unknown a (path ∷ rest) refl all other))
      ]

  -- Whatever the arguments, the environment and the file system are, `run` shows the help if some
  -- argument asks for it; otherwise it loads the path behind `--config` or `-c`, or fails if this
  -- path is missing or if the first argument is another; and without arguments it loads the first
  -- path of the search order that exists, or shows the help if none exists; a loaded configuration
  -- is served, and the error of one that was not loaded is the outcome; and the exit code is 0 if
  -- the help was shown, 1 if `run` itself printed a message with `eprintln!`, and for a
  -- configuration that is served, without such a message, 0, once the server has returned, if the
  -- `maxclients` of each listener is at most the number of permits that a semaphore can have, and
  -- otherwise 101, that of the builder's panic.
  pub run-IsRunOf :
      (lib : SemaphoreLib) (parse_addr : String → Option SocketAddr)
      (show_addr : SocketAddr → String) (version : String) (show_io : IoError → String)
      (args : List String) (tpt_config : Option String)
      → let o = run exists load args tpt_config in
        IsRunOf exists load tpt_config args o
        × IsExit lib parse_addr show_addr
            (printed version show_io o)
            o
            (exit_code lib parse_addr show_addr o)
  unfolding run parse_args run_cli
  run-IsRunOf lib parse_addr show_addr version show_io args tpt_config = (
    elim (any_help-cases args) [
      | inl (a, listed, asks, e) ↦ rw (e, run) (help_asked a listed asks)
      | inr (all, none_asks) ↦ match_first-IsRunOf args tpt_config all none_asks
    ],
    exit_code-IsExit lib parse_addr show_addr version show_io (run exists load args tpt_config),
  )
