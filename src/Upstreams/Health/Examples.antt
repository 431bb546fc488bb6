-- ===== src/Upstreams/Health/Examples.antt =====
-- Tests of the health upstream, and its theorem for one entry with three of five permits free.
use tls_proxy_tunnel.Base.{ℕ, ◌≡◌, refl, none, some, [], ◌∷◌, show, show_fuel, digit}
use tls_proxy_tunnel.Upstreams.Types.{Metrics}
use tls_proxy_tunnel.Upstreams.Health.{health_handler}
use tls_proxy_tunnel.Upstreams.Health.Scraped.{read_page, samples}
use tls_proxy_tunnel.Upstreams.Health.Page.{unlines, page, health_handler_lem}

abbrev metrics : Metrics
metrics = record { name = "web"; listen = "[::]:443"; maxclients_limit = 5; semaphore = 0 } ∷ []

abbrev available : ℕ → ℕ
available place = 3

abbrev running : ℕ → ℕ
running place = 2

other_path : (health_handler available "/" metrics).body ≡ "OK"
unfolding health_handler
other_path = refl

third_line :
    page running metrics
    ≡ "# HELP tpt_active_connections Current number of active connections"
      ∷ "# TYPE tpt_active_connections gauge"
      ∷ "tpt_active_connections{name=\"web\",listen=\"[::]:443\"} 2"
      ∷ "# HELP tpt_maxclients Maximum number of concurrent connections"
      ∷ "# TYPE tpt_maxclients gauge" ∷ "tpt_maxclients{name=\"web\",listen=\"[::]:443\"} 5" ∷ []
unfolding show show_fuel digit
third_line = refl

page_of_one : (health_handler available "/metrics" metrics).body ≡ unlines (page running metrics)
page_of_one = health_handler_lem available running "/metrics" metrics (refl, tt)

reads_page : read_page (unlines (page running metrics)) ≡ some (samples running metrics)
unfolding show show_fuel digit
reads_page = refl

-- A name with a double quote is not escaped, and the page cannot be read.
abbrev quoted : Metrics
quoted = record { name = "a\"b"; listen = "[::]:443"; maxclients_limit = 5; semaphore = 0 } ∷ []

does_not_read_quoted : read_page (unlines (page running quoted)) ≡ none
unfolding show show_fuel digit
does_not_read_quoted = refl
