-- ===== src/Address/Tasks/Sequential.antt =====
-- servers/upstream_address/mod.rs, `resolve`, lock by lock, against a plain cache that expires at a
-- time: calls one after the other.
use tls_proxy_tunnel.Base.{List, [], ◌∷◌}
use tls_proxy_tunnel.Address.{ResolutionMode, UpstreamAddress}
use tls_proxy_tunnel.Address.History.{Call}
use tls_proxy_tunnel.Address.Tasks.{Task, checking, alone}

-- A call after its seven steps.
abbrev pub stepped : UpstreamAddress → ResolutionMode → Call → UpstreamAddress × Task
stepped a mode c = alone mode c.now c.later c.answer 7 (a, checking)

-- Where some calls stand, each of which takes its steps before the next one starts.
abbrev pub in_turn : UpstreamAddress → List (ResolutionMode × Call) → List Task
in_turn a [] = []
in_turn a ((mode, c) ∷ calls) = (stepped a mode c).1 ∷ in_turn (stepped a mode c).0 calls
