-- ===== src/Upstreams/Relay.antt =====
-- upstreams/proxy_to_upstream/relay.rs. The two directions run as one task; what the sockets do is
-- a list of events, each for one direction, with the ticks of the statistics between them.
pub mod Copied
pub mod Interleaved
mod Examples
use tls_proxy_tunnel.Base.{
  ℕ, ◌+◌, ◌%◌, ◌^◌, ◌≡◌, Bool, true, false, ◌&&◌, Option, none, some, List, [], ◌∷◌, ◌++◌, ltb,
  if◌then◌else◌, length, take,
}
use tls_proxy_tunnel.Utf8.{Bytes}

-- `total` and the shared counter are `u64`.
pub record Copy : Type 0 where
  pub written : Bytes
  pub total : ℕ
  pub counter : ℕ
  pub shut_down : Bool
  pub returned : Bool

abbrev pub new_copy : Copy
new_copy = record { written = []; total = 0; counter = 0; shut_down = false; returned = false }

-- A round of `copy_counted`: a chunk (of at most 16 KiB) that is read and written, the end of the stream (an empty
-- chunk), a failed read, or a chunk of which the writer took `k` bytes before it failed.
pub data CopyEvent : Type 0 where
  chunk : Bytes → CopyEvent
  read_error : CopyEvent
  write_error : Bytes → ℕ → CopyEvent

abbrev pub add_u64 : ℕ → ℕ → ℕ
add_u64 a b = (a + b) % 2 ^ 64

-- Every way out of the loop shuts the writer down and returns `Ok(total)`.
unfoldable pub finish : Copy → Copy
finish c = record c { shut_down = true; returned = true }

unfoldable pub copy_round : Copy → CopyEvent → Copy
unfolding finish
copy_round c (chunk []) = finish c
copy_round c (chunk (b ∷ bs)) =
    let n = length (b ∷ bs) in
    record c {
      written = c.written ++ b ∷ bs;
      total = add_u64 c.total n;
      counter = add_u64 c.counter n;
    }
copy_round c read_error = finish c
copy_round c (write_error bs k) = record c {
  written = c.written ++ take k bs;
  shut_down = true;
  returned = true;
}

-- A copy that has returned takes part in nothing.
unfoldable pub copy_step : Copy → CopyEvent → Copy
unfolding copy_round
copy_step c e = if c.returned then c else copy_round c e

unfoldable pub copy_counted : Copy → List CopyEvent → Copy
unfolding copy_step
copy_counted c [] = c
copy_counted c (e ∷ es) = copy_counted (copy_step c e) es

pub record Relay : Type 0 where
  -- inbound to outbound, and back
  pub tx : Copy
  pub rx : Copy
  -- whether the statistics task was spawned, and the pairs that it logged
  pub stats : Bool
  pub logged : List (ℕ × ℕ)

pub data RelayEvent : Type 0 where
  sent received : CopyEvent → RelayEvent
  ticked : RelayEvent

unfoldable pub new_relay : ℕ → Relay
new_relay stats_interval = record {
  tx = new_copy;
  rx = new_copy;
  stats = ltb 0 stats_interval;
  logged = [];
}

-- `try_join` ends when both copies have returned; the statistics task is aborted then.
unfoldable pub is_over : Relay → Bool
is_over r = r.tx.returned && r.rx.returned

unfoldable pub log_counters : Relay → Relay
log_counters r =
    if r.stats then record r { logged = r.logged ++ (r.tx.counter, r.rx.counter) ∷ [] } else r

unfoldable pub relay_round : Relay → RelayEvent → Relay
unfolding copy_step log_counters
relay_round r (sent e) = record r { tx = copy_step r.tx e }
relay_round r (received e) = record r { rx = copy_step r.rx e }
relay_round r ticked = log_counters r

unfoldable pub relay_step : Relay → RelayEvent → Relay
unfolding is_over relay_round
relay_step r e = if is_over r then r else relay_round r e

unfoldable pub relay : Relay → List RelayEvent → Relay
unfolding relay_step
relay r [] = r
relay r (e ∷ es) = relay (relay_step r e) es

-- `Ok((tx, rx))`, or nothing while the relay runs. It has no error: `copy_counted` has none.
unfoldable pub result : Relay → Option (ℕ × ℕ)
unfolding is_over
result r = if is_over r then some (r.tx.total, r.rx.total) else none
