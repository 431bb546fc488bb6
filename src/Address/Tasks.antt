-- ===== src/Address/Tasks.antt =====
-- servers/upstream_address/mod.rs, `resolve`, lock by lock: calls that share one cache, as the
-- connections of an upstream do. A step is what a call does under one lock, or its lookup.
pub mod Alone
pub mod Sound
pub mod Interleaved
pub mod Returns
pub mod Sequential
mod Examples
use tls_proxy_tunnel.Base.{
  ℕ, zero, suc, ◌-◌, Bool, true, false, Option, none, some, List, [], ◌∷◌, ltb, if◌then◌else◌,
}
use tls_proxy_tunnel.Net.{SocketAddr, IoError, IoResult, io_ok, io_err, seconds, minutes}
use tls_proxy_tunnel.Address.{ResolutionMode, UpstreamAddress, is_resolved, select_family}

-- Where a call stands.
pub data Task : Type 0 where
  -- `is_resolved`, the two reads of `is_valid`, and the read of the addresses
  checking timing : Task
  expiring : ℕ → Task
  serving : Task
  looking : Task
  -- after a failed lookup
  failing failing_ttl : IoError → Task
  -- after a successful one, with the addresses of the family
  storing stamping limiting : List SocketAddr → Task
  finished : IoResult (List SocketAddr) → Task

after_time : Option ℕ → Task
after_time none = looking
after_time (some r) = expiring r

after_ttl : ℕ → ℕ → Option ℕ → Task
after_ttl now r none = looking
after_ttl now r (some ttl) = if ltb (now - r) ttl then serving else looking

after_lookup : ResolutionMode → IoResult (List SocketAddr) → Task
unfolding select_family
after_lookup mode (io_ok found) = storing (select_family mode found)
after_lookup mode (io_err e) = failing e

-- The step of a call at the time `now`; `answer` is the resolver's, if it is asked.
unfoldable pub advance :
    ResolutionMode
    → ℕ
    → IoResult (List SocketAddr)
    → UpstreamAddress
    → Task
    → UpstreamAddress × Task
unfolding is_resolved after_time after_ttl after_lookup
advance mode now answer a checking = (a, if is_resolved a then timing else looking)
advance mode now answer a timing = (a, after_time a.resolved_time)
advance mode now answer a (expiring r) = (a, after_ttl now r a.ttl)
advance mode now answer a serving = (a, finished (io_ok a.resolved_addresses))
advance mode now answer a looking = (a, after_lookup mode answer)
advance mode now answer a (failing e) = (record a { resolved_time = some now }, failing_ttl e)
advance mode now answer a (failing_ttl e) =
    (record a { ttl = some (seconds 3) }, finished (io_err e))
advance mode now answer a (storing xs) = (record a { resolved_addresses = xs }, stamping xs)
advance mode now answer a (stamping xs) = (record a { resolved_time = some now }, limiting xs)
advance mode now answer a (limiting xs) = (record a { ttl = some (minutes 1) }, finished (io_ok xs))
advance mode now answer a (finished r) = (a, finished r)

-- Calls beside each other, and which of them goes on.
pub record Shared : Type 0 where
  pub cache : UpstreamAddress
  pub tasks : List Task

pub record Turn : Type 0 where
  pub task : ℕ
  pub now : ℕ
  pub answer : IoResult (List SocketAddr)

unfoldable pub turn_at :
    ResolutionMode → Turn → UpstreamAddress → ℕ → List Task → UpstreamAddress × List Task
unfolding advance
turn_at mode t a i [] = (a, [])
turn_at mode t a zero (x ∷ xs) = let (a', x') = advance mode t.now t.answer a x in (a', x' ∷ xs)
turn_at mode t a (suc i) (x ∷ xs) = let (a', xs') = turn_at mode t a i xs in (a', x ∷ xs')

unfoldable pub take_turn : ResolutionMode → Shared → Turn → Shared
unfolding turn_at
take_turn mode s t =
    let (a, xs) = turn_at mode t s.cache t.task s.tasks in record { cache = a; tasks = xs }

unfoldable pub interleave : ResolutionMode → Shared → List Turn → Shared
unfolding take_turn
interleave mode s [] = s
interleave mode s (t ∷ ts) = interleave mode (take_turn mode s t) ts

-- One call alone: it checks the cache at `now`, and has the answer and writes at `later`.
time_of : ℕ → ℕ → Task → ℕ
time_of now later checking = now
time_of now later timing = now
time_of now later (expiring r) = now
time_of now later serving = now
time_of now later looking = later
time_of now later (failing e) = later
time_of now later (failing_ttl e) = later
time_of now later (storing xs) = later
time_of now later (stamping xs) = later
time_of now later (limiting xs) = later
time_of now later (finished r) = later

unfoldable pub alone :
    ResolutionMode
    → ℕ
    → ℕ
    → IoResult (List SocketAddr)
    → ℕ
    → UpstreamAddress × Task
    → UpstreamAddress × Task
unfolding advance time_of
alone mode now later answer zero (a, t) = (a, t)
alone mode now later answer (suc n) (a, t) =
    alone mode now later answer n (advance mode (time_of now later t) answer a t)
