-- ===== src/Servers/Listener/Examples.antt =====
-- Tests of the accept loop, and its theorems for a limit of one connection.
use tls_proxy_tunnel.Base.{length, ◌≤◌, ◌≡◌, refl, ◌⊎◌, ◌||◌, true, false, List, [], ◌∷◌}
use tls_proxy_tunnel.Net.{would_block}
use tls_proxy_tunnel.Upstreams.Health.{active}
use tls_proxy_tunnel.Servers.Semaphores.{counter}
use tls_proxy_tunnel.Servers.Listener.{
  Event, accepted, accept_failed, cancelled, ended, remove_id, Listener, start, listening,
  listen_step, listen,
}
use tls_proxy_tunnel.Servers.Listener.Capacity.{
  spec, forget, IsBalanced, listen-refines, listen-active,
}
use tls_proxy_tunnel.Servers.Listener.Known.{arrives, ends, is_known}
use tls_proxy_tunnel.Servers.Listener.Conserved.{listen_conserves}
use tls_proxy_tunnel.Servers.Listener.Health.{IsUnlimited, listen-IsUnlimited}

-- The second connection comes too early, and the fourth after the stop.
abbrev busy : List Event
busy =
    accepted 10
    ∷ accepted 11
    ∷ accept_failed would_block
    ∷ ended 10
    ∷ accepted 12
    ∷ cancelled
    ∷ accepted 13
    ∷ []

abbrev at_start : Listener counter
at_start = start counter 1

rejects_one : (listen counter false at_start busy).rejected ≡ 11 ∷ []
unfolding listen listen_step remove_id start
rejects_one = refl

holds_one : (listen counter false at_start busy).held ≡ 12 ∷ []
unfolding listen listen_step remove_id start
holds_one = refl

health_takes_all : (listen counter true at_start busy).unlimited ≡ 12 ∷ 11 ∷ []
unfolding listen listen_step remove_id start
health_takes_all = refl

listen-refines_example :
    (forget counter (listen counter false at_start busy) ≡ spec 1 (forget counter at_start) busy)
    × IsBalanced counter 1 (listen counter false at_start busy)
unfolding start
listen-refines_example = listen-refines counter 1 at_start busy refl

listen-IsUnlimited_example : IsUnlimited counter at_start (listen counter true at_start busy)
unfolding start
listen-IsUnlimited_example = listen-IsUnlimited counter at_start busy refl

active_is_one :
    (active 1 (listen counter false at_start busy).semaphore
      ≡ length (listen counter false at_start busy).held)
    × (length (listen counter false at_start busy).held ≤ 1)
active_is_one = listen-active counter 1 1 busy refl

listen_conserves_example :
    ((arrives 11 listening busy ≡ false)
      × (is_known counter 11 (listen counter false (start counter 1) busy) ≡ false))
    ⊎ ((arrives 11 listening busy ≡ true)
        × ((is_known counter 11 (listen counter false (start counter 1) busy) || ends 11 busy)
            ≡ true))
listen_conserves_example = listen_conserves counter false 1 busy 11
