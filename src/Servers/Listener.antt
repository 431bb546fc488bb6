-- ===== src/Servers/Listener.antt =====
-- servers/protocol/tcp.rs, `proxy`: the accept loop of one listen address, with the tasks that it
-- spawned. A connection is a number; what the listener, the token and the tasks do is a list of
-- events, in any order.
pub mod Capacity
pub mod Health
pub mod Known
pub mod Conserved
mod Examples
use tls_proxy_tunnel.Base.{
  ℕ, ◌≡◌, Bool, true, false, Option, none, some, List, [], ◌∷◌, ◌==◌, if◌then◌else◌,
}
use tls_proxy_tunnel.Net.{IoError, would_block, other}
use tls_proxy_tunnel.Servers.Semaphores.{SemaphoreLib}

pub data Status : Type 0 where
  listening : Status
  -- `return Ok(())`, on the token
  stopped : Status
  -- `return Err(…)`
  broken : IoError → Status

pub data Event : Type 0 where
  accepted : ℕ → Event
  accept_failed : IoError → Event
  -- `token.cancelled()` was the branch that `select!` took
  cancelled : Event
  -- a task returned, and its permit was dropped if it has one
  ended : ℕ → Event

-- The list without the first such number, if there is one.
unfoldable pub remove_id : ℕ → List ℕ → Option (List ℕ)
remove_id id [] = none
remove_id id (x ∷ xs) = elim (x == id) [
  | true ↦ some xs
  | false ↦ elim (remove_id id xs) [ none ↦ none | some ys ↦ some (x ∷ ys) ]
]

module _ (lib : SemaphoreLib) where
  open lib use {Semaphore, try_acquire, release}

  pub record Listener : Type 0 where
    pub semaphore : Semaphore
    -- the running tasks with a permit, and those without
    pub held : List ℕ
    pub unlimited : List ℕ
    -- the connections that were dropped for want of a permit
    pub rejected : List ℕ
    pub status : Status

  unfoldable pub start : Semaphore → Listener
  start semaphore = record {
    semaphore = semaphore;
    held = [];
    unlimited = [];
    rejected = [];
    status = listening;
  }

  unfoldable pub hold_or_reject : ℕ → Listener → Option Semaphore → Listener
  hold_or_reject id l none = record l { rejected = id ∷ l.rejected }
  hold_or_reject id l (some s) = record l { semaphore = s; held = id ∷ l.held }

  -- The body of the loop for a connection.
  unfoldable pub on_accepted : Bool → ℕ → Listener → Listener
  unfolding hold_or_reject
  on_accepted is_health_server id l =
      if is_health_server
      then record l { unlimited = id ∷ l.unlimited }
      else hold_or_reject id l (try_acquire l.semaphore)

  unfoldable pub on_failed : IoError → Listener → Listener
  on_failed would_block l = l
  on_failed (other text) l = record l { status = broken (other text) }

  -- The loop's part of a step; the loop takes part in nothing after its return.
  unfoldable pub loop_step : Bool → Status → Event → Listener → Listener
  unfolding on_accepted on_failed
  loop_step is_health_server listening (accepted id) l = on_accepted is_health_server id l
  loop_step is_health_server listening (accept_failed e) l = on_failed e l
  loop_step is_health_server listening cancelled l = record l { status = stopped }
  loop_step is_health_server listening (ended id) l = l
  loop_step is_health_server stopped e l = l
  loop_step is_health_server (broken x) e l = l

  unfoldable pub drop_unlimited : ℕ → Listener → Listener
  drop_unlimited id l = elim (remove_id id l.unlimited) [
    | none ↦ l
    | some rest ↦ record l { unlimited = rest }
  ]

  unfoldable pub on_ended : ℕ → Listener → Listener
  unfolding remove_id drop_unlimited
  on_ended id l = elim (remove_id id l.held) [
    | none ↦ drop_unlimited id l
    | some rest ↦ record l { semaphore = release l.semaphore; held = rest }
  ]

  unfoldable pub listen_step : Bool → Listener → Event → Listener
  unfolding loop_step on_ended
  listen_step is_health_server l (ended id) = on_ended id l
  listen_step is_health_server l (accepted id) = loop_step is_health_server l.status (accepted id) l
  listen_step is_health_server l (accept_failed e) =
      loop_step is_health_server l.status (accept_failed e) l
  listen_step is_health_server l cancelled = loop_step is_health_server l.status cancelled l

  unfoldable pub listen : Bool → Listener → List Event → Listener
  unfolding listen_step
  listen is_health_server l [] = l
  listen is_health_server l (e ∷ es) = listen is_health_server (listen_step is_health_server l e) es
