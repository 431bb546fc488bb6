-- ===== src/Address/Tasks/Examples.antt =====
-- Tests of interleaved calls, and their theorems at concrete inputs.
use tls_proxy_tunnel.Base.{ℕ, ◌≡◌, refl, arith, List, [], ◌∷◌, All, replicate, some, get_elem?}
use tls_proxy_tunnel.Net.{SocketAddr, v4, v6, would_block, IoResult, io_ok, io_err, seconds}
use tls_proxy_tunnel.Address.{ipv4, new, is_resolved, filter_addresses, select_family, resolve}
use tls_proxy_tunnel.Address.Tasks.{
  checking, finished, advance, Shared, Turn, turn_at, take_turn, interleave, alone,
}
use tls_proxy_tunnel.Address.Tasks.Returns.{interleave_returns}
use tls_proxy_tunnel.Address.History.{Call}
use tls_proxy_tunnel.Address.Tasks.Alone.{alone-resolve}
use tls_proxy_tunnel.Address.Tasks.Interleaved.{IsResult, interleave-IsResult}

abbrev turn : ℕ → ℕ → IoResult (List SocketAddr) → Turn
turn task now answer = record { task = task; now = now; answer = answer }

abbrev found : IoResult (List SocketAddr)
found = io_ok (v6 9 80 ∷ v4 7 80 ∷ [])

abbrev unknown : IoResult (List SocketAddr)
unknown = io_err would_block

-- The second call fails between the writes of the first, which then puts its own time and limit
-- over those of the failure.
abbrev crossing : List Turn
crossing =
    turn 0 1 found
    ∷ turn 1 1 found
    ∷ turn 0 2 found
    ∷ turn 1 2 unknown
    ∷ turn 0 3 found
    ∷ turn 1 4 unknown
    ∷ turn 1 5 unknown
    ∷ turn 0 6 found
    ∷ turn 0 7 found
    ∷ []

abbrev two_calls : Shared
two_calls = record { cache = new "h:80"; tasks = replicate 2 checking }

both_return :
    (interleave ipv4 two_calls crossing).tasks
    ≡ finished (io_ok (v4 7 80 ∷ [])) ∷ finished (io_err would_block) ∷ []
unfolding interleave take_turn turn_at advance is_resolved select_family filter_addresses new
both_return = refl

minute_stays : (interleave ipv4 two_calls crossing).cache.ttl ≡ some (seconds 60)
unfolding interleave take_turn turn_at advance is_resolved select_family filter_addresses new
minute_stays = refl

interleave-IsResult_example :
    All (IsResult ipv4 crossing) (interleave ipv4 two_calls crossing).tasks
interleave-IsResult_example = interleave-IsResult ipv4 "h:80" 2 crossing

steps_as_one :
    alone ipv4 3 4 found 7 (new "h:80", checking)
    ≡ ((resolve (new "h:80") ipv4 3 4 found).0, finished (resolve (new "h:80") ipv4 3 4 found).1)
steps_as_one = alone-resolve (new "h:80") ipv4 3 4 found

-- The second call comes in between, and each of its lookups fails.
abbrev crowded : List Turn
crowded =
    turn 1 1 unknown
    ∷ turn 0 1 found
    ∷ turn 1 2 unknown
    ∷ turn 0 3 found
    ∷ turn 0 4 found
    ∷ turn 1 4 unknown
    ∷ turn 0 5 found
    ∷ turn 0 6 found
    ∷ turn 1 7 unknown
    ∷ turn 0 8 found
    ∷ turn 0 9 found
    ∷ []

interleave_returns_example :
    (r : IoResult (List SocketAddr)) × (get_elem? (interleave ipv4 two_calls crowded).tasks 0
      ≡ some (finished r))
    × IsResult ipv4 crowded (finished r)
interleave_returns_example = interleave_returns ipv4 "h:80" 2 0 crowded (omega arith) (omega arith)

abbrev early : Call
early = record { now = 0; later = 1; answer = found }

abbrev soon_after : Call
soon_after = record { now = seconds 30; later = seconds 31; answer = unknown }
