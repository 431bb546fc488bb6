-- ===== src/Servers/Shutdown.antt =====
-- servers/mod.rs, `Server::run`: the token, and the tasks that the tracker waits for. What the
-- signals, the listeners and the tasks do is a list of events, in any order.
pub mod Drain
pub mod Waits
mod Examples
use tls_proxy_tunnel.Base.{
  ℕ, zero, suc, ◌≡◌, Bool, true, false, ◌&&◌, not, Option, none, some, List, [], ◌∷◌, is_one_of,
  if◌then◌else◌,
}
use tls_proxy_tunnel.Net.{IoError, IoResult, io_ok, io_err}
use tls_proxy_tunnel.Servers.Semaphores.{SemaphoreLib}
use tls_proxy_tunnel.Servers.Types.{Proxy, is_health_server}
use tls_proxy_tunnel.Servers.Listener.{
  Status, listening, stopped, broken, Event, accepted, accept_failed, cancelled, ended, Listener,
  start, listen_step,
}

unfoldable pub is_listening : Status → Bool
is_listening listening = true
is_listening stopped = false
is_listening (broken e) = false

unfoldable pub is_empty : List ℕ → Bool
is_empty [] = true
is_empty (x ∷ xs) = false

-- One of the four signals, or an event at a listener.
pub data RunEvent : Type 0 where
  signal : RunEvent
  at : ℕ → Event → RunEvent

module _ (lib : SemaphoreLib) where
  open lib use {Semaphore}

  -- A listener's task: whether its server is a health server, and its loop.
  pub record Task : Type 0 where
    pub is_health : Bool
    pub listener : Listener lib

  -- `match config.protocol.as_ref()` and `TcpListener::bind`. The task of an unknown protocol is
  -- over at once, and so is that of a listener that cannot be bound.
  unfoldable pub start_listener : Bool → IoResult (Unit {0}) → Listener lib → Listener lib
  start_listener false bound l = record l { status = stopped }
  start_listener true (io_ok u) l = l
  start_listener true (io_err e) l = record l { status = broken e }

  unfoldable pub start_task : Proxy → IoResult (Unit {0}) → Semaphore → Task
  unfolding is_health_server start_listener start
  start_task p bound semaphore = record {
    is_health = is_health_server p;
    listener =
        start_listener (is_one_of p.protocol ("tcp" ∷ "tcp4" ∷ "tcp6" ∷ [])) bound
          (start lib semaphore);
  }

  pub record Run : Type 0 where
    -- whether the token is cancelled
    pub token : Bool
    pub tasks : List Task

  -- `token.cancelled()` is ready only once the token is cancelled.
  unfoldable pub task_step : Bool → Task → Event → Task
  unfolding listen_step
  task_step true t e = record t { listener = listen_step lib t.is_health t.listener e }
  task_step false t cancelled = t
  task_step false t (accepted id) = record t {
    listener = listen_step lib t.is_health t.listener (accepted id);
  }
  task_step false t (accept_failed e) = record t {
    listener = listen_step lib t.is_health t.listener (accept_failed e);
  }
  task_step false t (ended id) = record t {
    listener = listen_step lib t.is_health t.listener (ended id);
  }

  unfoldable pub step_at : Bool → List Task → ℕ → Event → List Task
  unfolding task_step
  step_at token [] i e = []
  step_at token (t ∷ ts) zero e = task_step token t e ∷ ts
  step_at token (t ∷ ts) (suc i) e = t ∷ step_at token ts i e

  unfoldable pub run_step : Run → RunEvent → Run
  unfolding step_at
  run_step r signal = record r { token = true }
  run_step r (at i e) = record r { tasks = step_at r.token r.tasks i e }

  unfoldable pub run : Run → List RunEvent → Run
  unfolding run_step
  run r [] = r
  run r (e ∷ es) = run (run_step r e) es

  unfoldable pub is_over : Task → Bool
  unfolding is_listening is_empty
  is_over t =
      not (is_listening t.listener.status)
      && (is_empty t.listener.held && is_empty t.listener.unlimited)

  unfoldable pub all_over : List Task → Bool
  unfolding is_over
  all_over [] = true
  all_over (t ∷ ts) = is_over t && all_over ts

  -- `token.cancelled().await`, `tracker.close()` and `tracker.wait().await` have all ended.
  unfoldable pub returned : Run → Bool
  unfolding all_over
  returned r = r.token && all_over r.tasks
