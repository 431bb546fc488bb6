-- ===== src/Upstreams/Relay/Interleaved.antt =====
-- upstreams/proxy_to_upstream/relay.rs, `relay`: both directions, in any order of their events.
use mathlib.Core.List.{append-nil}
use tls_proxy_tunnel.Base.{
  ℕ, ◌≡◌, refl, sym, ap, ◌∙◌, Bool, ◌&&◌, not, subst, none, some, List, [], ◌∷◌, ◌++◌, arith, ltb,
  if◌then◌else◌,
}
use tls_proxy_tunnel.Upstreams.Relay.{
  CopyEvent, copy_step, copy_counted, Relay, RelayEvent, sent, received, ticked, new_relay, is_over,
  log_counters, relay_round, relay_step, relay, result,
}
use tls_proxy_tunnel.Upstreams.Relay.Copied.{ends, counted, IsCopy, copy_counted-IsCopy}

-- The events of one direction, in their order.
abbrev pub sent_events : List RelayEvent → List CopyEvent
sent_events [] = []
sent_events (sent e ∷ es) = e ∷ sent_events es
sent_events (received e ∷ es) = sent_events es
sent_events (ticked ∷ es) = sent_events es

abbrev pub received_events : List RelayEvent → List CopyEvent
received_events [] = []
received_events (sent e ∷ es) = received_events es
received_events (received e ∷ es) = e ∷ received_events es
received_events (ticked ∷ es) = received_events es

-- A step moves a direction by its own event alone; a relay that is over has no direction left to
-- move.
relay_step_sent :
    (r : Relay) (e : CopyEvent)
    → ((relay_step r (sent e)).tx ≡ copy_step r.tx e) × ((relay_step r (sent e)).rx ≡ r.rx)
unfolding relay_step is_over relay_round copy_step
relay_step_sent r e = (ground arith, ground arith)

relay_step_received :
    (r : Relay) (e : CopyEvent)
    → ((relay_step r (received e)).tx ≡ r.tx) × ((relay_step r (received e)).rx ≡ copy_step r.rx e)
unfolding relay_step is_over relay_round copy_step
relay_step_received r e = (ground arith, ground arith)

relay_step_ticked :
    (r : Relay) → ((relay_step r ticked).tx ≡ r.tx) × ((relay_step r ticked).rx ≡ r.rx)
unfolding relay_step relay_round log_counters
relay_step_ticked r = (ground arith, ground arith)

relay_tx : (r : Relay) (es : List RelayEvent) → (relay r es).tx ≡ copy_counted r.tx (sent_events es)
unfolding relay copy_counted
relay_tx r [] = refl
relay_tx r (sent e ∷ es) =
    relay_tx (relay_step r (sent e)) es
    ∙ ap (λ c. copy_counted c (sent_events es)) (relay_step_sent r e).0
relay_tx r (received e ∷ es) =
    relay_tx (relay_step r (received e)) es
    ∙ ap (λ c. copy_counted c (sent_events es)) (relay_step_received r e).0
relay_tx r (ticked ∷ es) =
    relay_tx (relay_step r ticked) es
    ∙ ap (λ c. copy_counted c (sent_events es)) (relay_step_ticked r).0

relay_rx :
    (r : Relay) (es : List RelayEvent) → (relay r es).rx ≡ copy_counted r.rx (received_events es)
unfolding relay copy_counted
relay_rx r [] = refl
relay_rx r (sent e ∷ es) =
    relay_rx (relay_step r (sent e)) es
    ∙ ap (λ c. copy_counted c (received_events es)) (relay_step_sent r e).1
relay_rx r (received e ∷ es) =
    relay_rx (relay_step r (received e)) es
    ∙ ap (λ c. copy_counted c (received_events es)) (relay_step_received r e).1
relay_rx r (ticked ∷ es) =
    relay_rx (relay_step r ticked) es
    ∙ ap (λ c. copy_counted c (received_events es)) (relay_step_ticked r).1

relay_stats : (r : Relay) (es : List RelayEvent) → (relay r es).stats ≡ r.stats
unfolding relay relay_step relay_round log_counters
relay_stats r [] = refl
relay_stats r (sent e ∷ es) = relay_stats (relay_step r (sent e)) es ∙ ground arith
relay_stats r (received e ∷ es) = relay_stats (relay_step r (received e)) es ∙ ground arith
relay_stats r (ticked ∷ es) = relay_stats (relay_step r ticked) es ∙ ground arith

relay-append : (r : Relay) (es fs : List RelayEvent) → relay r (es ++ fs) ≡ relay (relay r es) fs
unfolding relay
relay-append r [] fs = refl
relay-append r (e ∷ es) fs = relay-append (relay_step r e) es fs

-- The results of a relay after any events.
pub record IsRelayed (r : Relay) (es : List RelayEvent) : Type 0 where
  pub tx : IsCopy r.tx (sent_events es)
  pub rx : IsCopy r.rx (received_events es)
  pub result : result r ≡ (
      if ends (sent_events es) && ends (received_events es)
      then some (counted (sent_events es), counted (received_events es))
      else none)

result_of :
    (r : Relay) (es fs : List CopyEvent)
    → IsCopy r.tx es
    → IsCopy r.rx fs
    → result r ≡ (if ends es && ends fs then some (counted es, counted fs) else none)
unfolding result is_over
result_of r es fs t x = rw (t.returned, x.returned, t.total, x.total) refl

-- After any interleaving of events, each direction of a relay has written the chunks of its own
-- events in order up to the event that ended it, with its total and its counter the number of bytes
-- of the whole chunks modulo 2^64, and has shut its writer down exactly if it ended; the relay has
-- a result, the two counts, exactly when both directions have ended.
pub relay-IsRelayed :
    (stats_interval : ℕ) (es : List RelayEvent) → IsRelayed (relay (new_relay stats_interval) es) es
unfolding new_relay
relay-IsRelayed stats_interval es =
    let r = new_relay stats_interval in
    let tx =
      subst (λ c. IsCopy c (sent_events es)) (sym (relay_tx r es))
        (copy_counted-IsCopy (sent_events es)) in
    let rx =
      subst (λ c. IsCopy c (received_events es)) (sym (relay_rx r es))
        (copy_counted-IsCopy (received_events es)) in
    record {
      tx = tx;
      rx = rx;
      result = result_of (relay r es) (sent_events es) (received_events es) tx rx;
    }

logs_of :
    (r : Relay) {b d e : Bool} {m n : ℕ}
    → r.tx.returned ≡ d
    → r.rx.returned ≡ e
    → r.tx.counter ≡ m
    → r.rx.counter ≡ n
    → r.stats ≡ b
    → (relay r (ticked ∷ [])).logged ≡ r.logged ++ (if b && not (d && e) then (m, n) ∷ [] else [])
unfolding relay relay_step is_over relay_round log_counters
logs_of r {b} {d} {e} h k m n s = let nil = append-nil r.logged in ground arith

-- A tick of the statistics logs the numbers of bytes that each direction has relayed in whole
-- chunks, if the interval is not zero and a direction is still open, and nothing otherwise.
pub relay_logs :
    (stats_interval : ℕ) (es : List RelayEvent)
    → (relay (new_relay stats_interval) (es ++ ticked ∷ [])).logged
      ≡ (relay (new_relay stats_interval) es).logged
        ++ (if ltb 0 stats_interval && not (ends (sent_events es) && ends (received_events es))
            then (counted (sent_events es), counted (received_events es)) ∷ []
            else [])
unfolding new_relay
relay_logs stats_interval es =
    let r = new_relay stats_interval in
    let x = relay-IsRelayed stats_interval es in
    ap (λ s. s.logged) (relay-append r es (ticked ∷ []))
    ∙ logs_of (relay r es) x.tx.returned x.rx.returned x.tx.counter x.rx.counter (relay_stats r es)
