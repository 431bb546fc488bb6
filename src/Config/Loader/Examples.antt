-- ===== src/Config/Loader/Examples.antt =====
-- Tests of the configuration's way into the program, and its theorems at a concrete file.
use mathlib.Core.List.Permᴰ
use mathlib.Core.List.Permᴰ.{Permᴰ}
use tls_proxy_tunnel.Base.{
  ℕ, ◌^◌, ◌<◌, ◌≡◌, refl, arith, ◌↔◌, true, false, Option, none, some, List, [], ◌∷◌, String,
  contains, insert_set, is_one_of, show, pos,
}
use tls_proxy_tunnel.Base.Texts.{codes}
use tls_proxy_tunnel.Base.Dict.{Dict, get, insert, contains_key, map_values}
use tls_proxy_tunnel.Net.{IoResult, io_ok}
use tls_proxy_tunnel.Config.Types.{ParsedConfig}
use tls_proxy_tunnel.Config.Yaml.{
  text, ServerYaml, BaseYaml, read_sni_target, read_server, read_base, read_server_timeouts,
}
use tls_proxy_tunnel.Config.Error.{ok, err, custom, YamlResult, yaml_ok}
use tls_proxy_tunnel.Config.Url.{Url, schemes, with_scheme, try_from}
use tls_proxy_tunnel.Config.Url.ReadBack.{lookup_target, lookup_target-try_from}
use tls_proxy_tunnel.Config.Verify.{
  check_listens, insert_targets, sni_targets, insert_default, insert_used, check_used,
  check_servers, unused, verify_config,
}
use tls_proxy_tunnel.Config.Verify.Accepts.{IsWellFormed, verify_config_iff}
use tls_proxy_tunnel.Config.Verify.Unordered.{IsShuffled, verify_config-IsShuffled}
use tls_proxy_tunnel.Config.Verify.Warns.{verify_config_warns}
use tls_proxy_tunnel.Config.Loader.{
  check_version, check_log_format, builtin_upstreams, insert_upstreams, finish, read_checked,
  load_config,
}
use tls_proxy_tunnel.Config.Loader.Refused.{IsRefusal, load_config-IsRefusal}
use tls_proxy_tunnel.Config.Loader.Sound.{IsLoaded, get-insert_upstreams, load_config-IsLoaded}
use tls_proxy_tunnel.Upstreams.Types
use tls_proxy_tunnel.Upstreams.Types.{Upstream, ProxyToUpstream, ban, echo, health, proxy}

abbrev web : ServerYaml
web = record {
  listen = "0.0.0.0:443" ∷ "[::]:443" ∷ [];
  protocol = none;
  tls = some true;
  sni = some (("x.org", text "up") ∷ []);
  default = some "ban";
  via = none;
  maxclients = some 2;
}

abbrev document : BaseYaml
document = record {
  version = pos 1;
  log = none;
  log_format = none;
  servers = ("web", web) ∷ [];
  upstream = some (("up", "tcp4://h:80") ∷ ("spare", "tcp4://h:80") ∷ []);
  via = none;
}

abbrev url_of_h : Url
url_of_h = record { scheme = "tcp4"; host_str = some "h"; port_or_known_default = some 80 }

abbrev parse_url : String → Option Url
parse_url value = some url_of_h

abbrev read_file : String → IoResult String
read_file path = io_ok "the text of the file"

abbrev from_str : String → YamlResult BaseYaml
from_str contents = yaml_ok document

abbrev proxy_to_h : ProxyToUpstream
proxy_to_h = Types.new "h:80" "tcp4"

abbrev upstreams : Dict Upstream
upstreams = insert (insert builtin_upstreams "up" (proxy proxy_to_h)) "spare" (proxy proxy_to_h)

abbrev loaded : ParsedConfig
loaded = record {
  version = pos 1;
  log = none;
  servers = (read_base document).servers;
  upstream = upstreams;
}

loads : (load_config read_file from_str parse_url false "config.yaml").1 ≡ ok ("spare" ∷ [], loaded)
unfolding load_config read_checked check_version check_log_format finish insert_upstreams try_from
    with_scheme verify_config check_servers check_listens insert_used insert_targets sni_targets
    insert_default check_used unused contains insert_set contains_key get insert read_base
    read_server read_sni_target map_values Types.new show
loads = refl

load_config-IsLoaded_example :
    (contents : String) × (doc : BaseYaml) × (read_file "config.yaml" ≡ io_ok contents)
    × (from_str contents ≡ yaml_ok doc)
    × IsLoaded doc loaded
load_config-IsLoaded_example =
    load_config-IsLoaded read_file from_str parse_url false "config.yaml" ("spare" ∷ []) loaded
      loads

inserts :
    insert_upstreams parse_url
      (("up", "tcp4://h:80") ∷ ("spare", "tcp4://h:80") ∷ [])
      builtin_upstreams
    ≡ ok upstreams
unfolding insert_upstreams try_from with_scheme insert Types.new show
inserts = refl

get-insert_upstreams_example :
    (p : ProxyToUpstream) × (try_from parse_url "tcp4://h:80" ≡ ok p)
    × (get upstreams "up" ≡ some (proxy p))
unfolding contains get
get-insert_upstreams_example =
    get-insert_upstreams parse_url (("up", "tcp4://h:80") ∷ ("spare", "tcp4://h:80") ∷ [])
      builtin_upstreams upstreams "up" "tcp4://h:80" (refl, (refl, tt)) inserts refl

tries : try_from parse_url "tcp4://h:80" ≡ ok proxy_to_h
unfolding try_from with_scheme Types.new show
tries = refl

port_of_h :
    (any : String) (url : Url) (port : ℕ)
    → parse_url any ≡ some url
    → url.port_or_known_default ≡ some port
    → port < 2 ^ 16
port_of_h any url port e h =
    let same : url_of_h ≡ url = cc in
    let known : ◌≡◌ {A = Option ℕ} (some 80) (some port) = (rw (← same) at h) in ground arith

lookup_target-try_from_example :
    (url : Url) × (host : String) × (port : ℕ) × (parse_url "tcp4://h:80" ≡ some url)
    × (url.host_str ≡ some host)
    × (url.port_or_known_default ≡ some port)
    × (lookup_target (codes "h:80") ≡ some (codes host, port))
    × (is_one_of "tcp4" schemes ≡ true)
    × (proxy_to_h ≡ Types.new "h:80" url.scheme)
unfolding Types.new show
lookup_target-try_from_example =
    lookup_target-try_from parse_url "tcp4://h:80" proxy_to_h port_of_h tries

verify_config_iff_example :
    ((warned : List String) × (verify_config loaded ≡ ok (warned, loaded))) ↔ IsWellFormed loaded
verify_config_iff_example = verify_config_iff loaded

verifies : verify_config loaded ≡ ok ("spare" ∷ [], loaded)
unfolding verify_config check_servers check_listens insert_used insert_targets sni_targets
    insert_default check_used unused contains insert_set contains_key get insert read_base
    read_server read_sni_target map_values
verifies = refl

verify_config_warns_example : contains ("spare" ∷ []) "spare" ≡ true
unfolding contains insert read_base read_server read_sni_target map_values sni_targets
verify_config_warns_example = verify_config_warns loaded ("spare" ∷ []) "spare" verifies

-- The upstreams in another order.
abbrev reordered : ParsedConfig
reordered = record loaded {
  upstream =
      ("echo", echo)
      ∷ ("ban", ban)
      ∷ ("health", health [])
      ∷ ("up", proxy proxy_to_h)
      ∷ ("spare", proxy proxy_to_h)
      ∷ [];
}

reordered-IsShuffled : IsShuffled loaded reordered
unfolding insert
reordered-IsShuffled = record {
  servers = Permᴰ.refl loaded.servers;
  upstream = Permᴰ.swap refl refl;
}

verify_config-IsShuffled_example :
    (warned : List String) × (verify_config reordered ≡ ok (warned, reordered))
    × ((k : String) → contains warned k ≡ contains ("spare" ∷ []) k)
verify_config-IsShuffled_example =
    verify_config-IsShuffled loaded reordered reordered-IsShuffled ("spare" ∷ []) verifies

absent_via_has_no_timeout :
    ((read_server web).via.connect_timeout ≡ 0) × ((read_server web).via.target_port ≡ 0)
absent_via_has_no_timeout = read_server_timeouts web

-- A server that refers to an upstream that is not there.
abbrev refers_to_nothing : BaseYaml
refers_to_nothing = record document { upstream = none }

abbrev from_str_bad : String → YamlResult BaseYaml
from_str_bad contents = yaml_ok refers_to_nothing

refuses :
    (load_config read_file from_str_bad parse_url false "config.yaml").1
    ≡ err (custom "Upstream up not found")
unfolding load_config check_version check_log_format insert_upstreams check_servers check_listens
    insert_used insert_targets sni_targets insert_default check_used unused contains insert_set
    contains_key get insert read_base read_server read_sni_target map_values verify_config
refuses = refl

load_config-IsRefusal_example :
    IsRefusal read_file from_str_bad parse_url "config.yaml" (custom "Upstream up not found")
load_config-IsRefusal_example =
    load_config-IsRefusal read_file from_str_bad parse_url false "config.yaml"
      (custom "Upstream up not found") refuses
