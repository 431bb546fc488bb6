-- ===== src/Servers/Live.antt =====
-- servers/mod.rs, `Server::run`, on a server that servers/builder.rs made: the spawning of its
-- listeners, and what the semaphores that they share with the metrics hold while they run.
pub mod Started
pub mod Exact
pub mod Scraped
pub mod Drained
mod Examples
use tls_proxy_tunnel.Base.{
  ℕ, zero, suc, false, Option, none, some, List, [], ◌∷◌, length, get_elem?,
}
use tls_proxy_tunnel.Base.Options.{◌>>=◌}
use tls_proxy_tunnel.Net.{IoResult}
use tls_proxy_tunnel.Servers.Semaphores.{SemaphoreLib}
use tls_proxy_tunnel.Servers.Types.{Proxy, Server}
use tls_proxy_tunnel.Servers.Listener.{Listener}
use tls_proxy_tunnel.Servers.Shutdown.{Task, Run, start_task}

module _ (lib : SemaphoreLib) where
  open lib use {Semaphore, available_permits}

  -- The loop that spawns the listeners; `bind` is what `TcpListener::bind` answers to the `i`-th.
  -- `none` would be a proxy without a semaphore.
  unfoldable pub start_tasks :
      (ℕ → IoResult (Unit {0})) → List Semaphore → ℕ → List Proxy → Option (List (Task lib))
  unfolding start_task
  start_tasks bind semaphores i [] = some []
  start_tasks bind semaphores i (p ∷ ps) = do
    semaphore ← get_elem? semaphores p.maxclients
    rest ← start_tasks bind semaphores (suc i) ps
    some (start_task lib p (bind i) semaphore ∷ rest)

  unfoldable pub start_server :
      (ℕ → IoResult (Unit {0})) → Server → List Semaphore → Option (Run lib)
  unfolding start_tasks
  start_server bind server semaphores = do
    tasks ← start_tasks bind semaphores 0 server.proxies
    some (record { token = false; tasks = tasks })

  -- `available_permits` of the semaphore that the `i`-th listener shares with the metrics.
  abbrev pub permits_at : List (Task lib) → ℕ → ℕ
  permits_at [] i = 0
  permits_at (t ∷ ts) zero = available_permits t.listener.semaphore
  permits_at (t ∷ ts) (suc i) = permits_at ts i

  -- The connections of the `i`-th listener that hold a permit.
  abbrev pub running_at : List (Task lib) → ℕ → ℕ
  running_at [] i = 0
  running_at (t ∷ ts) zero = length t.listener.held
  running_at (t ∷ ts) (suc i) = running_at ts i
