-- ===== src/Upstreams/Health.antt =====
-- upstreams/mod.rs: `health_handler`, and the task that serves a health connection. The free permits
-- of a semaphore are a parameter. hyper reads and writes HTTP: it is the list of the requests.
pub mod Page
pub mod Scraped
pub mod Read
mod Examples
use Prim.Native.String
use tls_proxy_tunnel.Base.{
  ℕ, ◌-◌, Option, none, some, List, [], ◌∷◌, String, str_eq, show, if◌then◌else◌,
}
use tls_proxy_tunnel.Upstreams.Types.{MetricsEntry, Metrics}

pub record Response : Type 0 where
  pub content_type : Option String
  pub body : String

-- `writeln!`
abbrev pub write_line : String → String → String
write_line body line = String.◌++◌ body (String.◌++◌ line "\n")

-- `maxclients_limit.saturating_sub(semaphore.available_permits())`
abbrev pub active : ℕ → ℕ → ℕ
active limit available = limit - available

abbrev pub sample : String → MetricsEntry → ℕ → String
sample gauge e value = String.◌++◌ gauge (
    String.◌++◌ "{name=\"" (
      String.◌++◌ e.name
        (String.◌++◌ "\",listen=\"" (String.◌++◌ e.listen (String.◌++◌ "\"} " (show value))))))

abbrev pub active_gauge : String
active_gauge = "tpt_active_connections"

abbrev pub limit_gauge : String
limit_gauge = "tpt_maxclients"

module _ (available_permits : ℕ → ℕ) where
  write_active : Metrics → String → String
  write_active [] body = body
  write_active (e ∷ es) body = write_active es (
      write_line body
        (sample active_gauge e (active e.maxclients_limit (available_permits e.semaphore))))

  write_limits : Metrics → String → String
  write_limits [] body = body
  write_limits (e ∷ es) body =
      write_limits es (write_line body (sample limit_gauge e e.maxclients_limit))

  metrics_body : Metrics → String
  unfolding write_active write_limits
  metrics_body metrics =
      let body =
        write_line
          (write_line "" "# HELP tpt_active_connections Current number of active connections")
          "# TYPE tpt_active_connections gauge" in
      let body = write_active metrics body in
      let body =
        write_line
          (write_line body "# HELP tpt_maxclients Maximum number of concurrent connections")
          "# TYPE tpt_maxclients gauge" in
      write_limits metrics body

  unfoldable pub health_handler : String → Metrics → Response
  unfolding metrics_body
  health_handler path metrics =
      if str_eq path "/metrics"
      then record {
        content_type = some "text/plain; version=0.0.4; charset=utf-8";
        body = metrics_body metrics;
      }
      else record { content_type = none; body = "OK" }

-- A request that hyper hands to the service: its path, and what the semaphores answer while the
-- handler reads them, each once.
pub record Request : Type 0 where
  pub path : String
  pub available_permits : ℕ → ℕ

-- The service of `serve_connection`, with a clone of the metrics for each request.
unfoldable pub serve_connection : Metrics → List Request → List Response
unfolding health_handler
serve_connection metrics [] = []
serve_connection metrics (req ∷ reqs) =
    health_handler req.available_permits req.path metrics ∷ serve_connection metrics reqs
