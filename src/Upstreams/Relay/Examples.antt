-- ===== src/Upstreams/Relay/Examples.antt =====
-- Tests of the relay, and its theorems at concrete inputs.
use tls_proxy_tunnel.Base.{◌≡◌, refl, some, List, [], ◌∷◌, ◌++◌}
use tls_proxy_tunnel.Upstreams.Relay.{
  chunk, write_error, RelayEvent, sent, received, ticked, new_relay, copy_step, copy_round, finish,
  is_over, log_counters, relay_round, relay_step, relay, result,
}
use tls_proxy_tunnel.Upstreams.Relay.Interleaved.{IsRelayed, relay-IsRelayed, relay_logs}

-- Three bytes go out and two of the four that come back arrive.
abbrev exchange : List RelayEvent
exchange =
    sent (chunk (1 ∷ 2 ∷ 3 ∷ []))
    ∷ ticked
    ∷ received (chunk (9 ∷ []))
    ∷ sent (chunk [])
    ∷ received (write_error (7 ∷ 8 ∷ 6 ∷ []) 1)
    ∷ ticked
    ∷ []

relay_ends : result (relay (new_relay 5) exchange) ≡ some (3, 1)
unfolding result relay relay_step is_over relay_round log_counters new_relay copy_step copy_round
    finish
relay_ends = refl

relay_logs_once : (relay (new_relay 5) exchange).logged ≡ (3, 0) ∷ []
unfolding relay relay_step is_over relay_round log_counters new_relay copy_step copy_round finish
relay_logs_once = refl

relay_logs_nothing : (relay (new_relay 0) exchange).logged ≡ []
unfolding relay relay_step is_over relay_round log_counters new_relay copy_step copy_round finish
relay_logs_nothing = refl

relay-IsRelayed_example : IsRelayed (relay (new_relay 5) exchange) exchange
relay-IsRelayed_example = relay-IsRelayed 5 exchange

abbrev half : List RelayEvent
half = sent (chunk (1 ∷ 2 ∷ 3 ∷ [])) ∷ received (chunk (9 ∷ [])) ∷ []

relay_logs_example :
    (relay (new_relay 5) (half ++ ticked ∷ [])).logged
    ≡ (relay (new_relay 5) half).logged ++ (3, 1) ∷ []
relay_logs_example = relay_logs 5 half
