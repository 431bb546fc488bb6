-- ===== src/Cli/Messages.antt =====
-- main.rs, what the `println!` and `eprintln!` of `run` print. The version comes from the build and
-- the display of an I/O error from the system. The lines of the logger, which go to standard error,
-- and the runtime's message for a panic are not part of these texts.
use Prim.Native.String
use tls_proxy_tunnel.Base.{List, [], ◌∷◌, map, String, Bool, true, false, ◌||◌}
use tls_proxy_tunnel.Net.{IoError}
use tls_proxy_tunnel.Config.Error.{show_error}
use tls_proxy_tunnel.Cli.{Outcome, helped, usage_error, could_not_find, could_not_load, serving}

-- What one `println!` or `eprintln!` prints, without the line feed that these add.
pub data Printed : Type 0 where
  out : String → Printed
  complaint : String → Printed

abbrev usage : String
usage = "\n\nUSAGE:\n\ttpt [OPTIONS]\n\nOPTIONS:\n"

abbrev options : String
options =
    "\t-c, --config <path>    Path to config file\n\t-h, --help             Show this help\n\n"

abbrev search_order : String
search_order =
    String.◌++◌
      "CONFIG SEARCH ORDER (when --config is not given):\n\t1. $TPT_CONFIG environment variable\n"
      "\t2. /etc/tpt/tpt.yaml\n\t3. /etc/tpt/config.yaml\n\t4. ./tpt.yaml\n\t5. ./config.yaml\n"

unfoldable pub help_text : String → String
help_text version =
    String.◌++◌ "tls-proxy-tunnel (tpt) v"
      (String.◌++◌ version (String.◌++◌ usage (String.◌++◌ options search_order)))

listed : String → Printed
listed path = complaint (String.◌++◌ "  " path)

-- What `run` itself prints for an outcome, with `println!` or `eprintln!`.
unfoldable pub printed : String → (IoError → String) → Outcome → List Printed
unfolding help_text listed
printed version show_io helped = out (help_text version) ∷ []
printed version show_io (usage_error text) =
    complaint (String.◌++◌ "Error: " text) ∷ complaint "Run with --help for usage." ∷ []
printed version show_io (could_not_find paths) =
    complaint "Could not find config file. Tried paths:" ∷ map listed paths
printed version show_io (could_not_load e) =
    complaint (String.◌++◌ "Could not load config: " (show_error show_io e)) ∷ []
printed version show_io (serving config) = []

is_complaint : Printed → Bool
is_complaint (out text) = false
is_complaint (complaint text) = true

-- One of the texts was printed with `eprintln!`.
unfoldable pub complains : List Printed → Bool
unfolding is_complaint
complains [] = false
complains (p ∷ rest) = is_complaint p || complains rest
