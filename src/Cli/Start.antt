-- ===== src/Cli/Start.antt =====
-- main.rs, `find_config` and `run`.
use mathlib.Core.List.{append-nil, append_assoc}
use tls_proxy_tunnel.Base.{
  ◌≡◌, ◌≢◌, refl, sym, ap, ◌∙◌, ◌⊎◌, inl, inr, Bool, true, false, Option, none, some, List, [], ◌∷◌,
  ◌++◌, String, arith, All, Bool-cases,
}
use tls_proxy_tunnel.Config.Types.{Config}
use tls_proxy_tunnel.Config.Error.{Result, ok, err}
use tls_proxy_tunnel.Cli.{
  Cli, help, run_with, Parsed, parsed, wrong, any_help, config_argument, match_first, parse_args,
  search_paths, Search, found, tried, search, find_config, usage_error, could_not_find, not_found,
  is_empty, loaded, serve_from, searched, run_cli, run,
}

module _ (exists : String → Bool) where
  abbrev pub IsMissing : String → Type 0
  IsMissing path = exists path ≡ false

  -- The first path that exists.
  pub record IsFirstPath (paths : List String) (path : String) : Type 0 where
    pub before : List String
    pub after : List String
    pub split : paths ≡ before ++ path ∷ after
    pub missing : All IsMissing before
    pub there : exists path ≡ true

  search-cases :
      (tried_paths paths : List String)
      → ((path : String) × (search exists tried_paths paths ≡ found path) × IsFirstPath paths path)
        ⊎ ((search exists tried_paths paths ≡ tried (tried_paths ++ paths)) × All IsMissing paths)
  unfolding search
  search-cases tried_paths [] = inr (ap tried (sym (append-nil tried_paths)), tt)
  search-cases tried_paths (p ∷ ps) = elim (Bool-cases (exists p)) [
    | inl e ↦ inl (
      p,
      rw (e, search) refl,
      record { before = []; after = ps; split = refl; missing = tt; there = e },
    )
    | inr e ↦ elim (search-cases (tried_paths ++ p ∷ []) ps) [
      | inl (path, same, first) ↦ inl (
        path,
        rw (e, search) same,
        record {
          before = p ∷ first.before;
          after = first.after;
          split = ap (λ xs. p ∷ xs) first.split;
          missing = (e, first.missing);
          there = first.there;
        },
      )
      | inr (same, missing) ↦
          inr
            (rw (e, search) (same ∙ ap tried (append_assoc tried_paths (p ∷ []) ps)), (e, missing))
    ]
  ]

  -- `find_config` gives the first path of the search order that exists; if none exists, it gives
  -- all the paths of the search order, in order.
  pub find_config-cases :
      (tpt_config : Option String)
      → ((path : String) × (find_config exists tpt_config ≡ found path)
          × IsFirstPath (search_paths tpt_config) path)
        ⊎ ((find_config exists tpt_config ≡ tried (search_paths tpt_config))
            × All IsMissing (search_paths tpt_config))
  unfolding find_config
  find_config-cases tpt_config = search-cases [] (search_paths tpt_config)

-- No path on the command line means no argument at all.
parse_args-none : (args : List String) → parse_args args ≡ parsed (run_with none) → args ≡ []
unfolding parse_args any_help match_first config_argument
parse_args-none [] h = refl
parse_args-none (a ∷ []) h = ground arith
parse_args-none (a ∷ b ∷ rest) h = ground arith

pub Parsed-cases :
    (p : Parsed) → ((cli : Cli) × (p ≡ parsed cli)) ⊎ ((text : String) × (p ≡ wrong text))
Parsed-cases (parsed cli) = inl (cli, refl)
Parsed-cases (wrong text) = inr (text, refl)

module _ (exists : String → Bool) (load : String → Result Config) where
  loaded_not_listed :
      (r : Result Config) (paths : List String) → loaded exists load r ≢ could_not_find paths
  unfolding loaded
  loaded_not_listed (ok config) paths h = cc
  loaded_not_listed (err e) paths h = cc

  searched_not_listed :
      (s : Search) (paths : List String) → searched exists load [] s ≢ could_not_find paths
  unfolding searched serve_from not_found is_empty
  searched_not_listed (found path) paths h = loaded_not_listed (load path) paths h
  searched_not_listed (tried others) paths h = cc

  run_cli_not_listed :
      (args : List String) (tpt_config : Option String) (cli : Cli) (paths : List String)
      → parse_args args ≡ parsed cli
      → run_cli exists load args tpt_config cli ≢ could_not_find paths
  unfolding run_cli serve_from
  run_cli_not_listed args tpt_config help paths e h = cc
  run_cli_not_listed args tpt_config (run_with (some path)) paths e h =
      loaded_not_listed (load path) paths h
  run_cli_not_listed args tpt_config (run_with none) paths e h =
      searched_not_listed (find_config exists tpt_config) paths (
        ap (λ as_given. searched exists load as_given (find_config exists tpt_config))
          (sym (parse_args-none args e))
        ∙ h)

  -- For no arguments, environment, file system and configuration does `run` end with the message
  -- that lists the tried paths.
  pub run_never_lists_paths :
      (args : List String) (tpt_config : Option String) (paths : List String)
      → run exists load args tpt_config ≢ could_not_find paths
  unfolding run
  run_never_lists_paths args tpt_config paths h = elim (Parsed-cases (parse_args args)) [
    | inl (cli, e) ↦ run_cli_not_listed args tpt_config cli paths e (rw (e, run) at h)
    | inr (text, e) ↦
        let other : usage_error text ≡ could_not_find paths = (rw (e, run) at h) in absurd (cc)
  ]
