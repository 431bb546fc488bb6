-- ===== src/Address/Expiry.antt =====
-- servers/upstream_address/mod.rs, `resolve`, against a plain cache that expires at a time.
use tls_proxy_tunnel.Base.{
  ℕ, ◌+◌, ◌<◌, ◌≡◌, refl, ap, ◌∙◌, Bool, true, false, ◌&&◌, not, Option, none, some, List, [], ◌∷◌,
  String, arith, ltb, inl, inr, Bool-cases, if◌then◌else◌,
}
use tls_proxy_tunnel.Net.{SocketAddr, IoResult, io_ok, io_err, seconds, minutes}
use tls_proxy_tunnel.Address.{
  ResolutionMode, UpstreamAddress, new, valid_at, is_empty, is_valid, is_resolved, select_family,
  store, resolve,
}
use tls_proxy_tunnel.Address.History.{Call, call_on}

-- Some addresses, and the time from which on they are not served.
pub record ExpiringCache : Type 0 where
  pub addresses : List SocketAddr
  pub expiry : Option ℕ

abbrev pub empty_cache : ExpiringCache
empty_cache = record { addresses = []; expiry = none }

abbrev pub is_fresh : ℕ → Option ℕ → Bool
is_fresh now none = false
is_fresh now (some expiry) = ltb now expiry

abbrev pub has_any : List SocketAddr → Bool
has_any [] = false
has_any (x ∷ xs) = true

-- A success takes the place of the addresses for a minute; a failure keeps them for three seconds.
abbrev pub renew :
    ExpiringCache
    → ResolutionMode
    → ℕ
    → IoResult (List SocketAddr)
    → ExpiringCache × IoResult (List SocketAddr)
renew s mode later (io_ok found) =
    let share = select_family mode found in
    (record { addresses = share; expiry = some (later + minutes 1) }, io_ok share)
renew s mode later (io_err e) = (record s { expiry = some (later + seconds 3) }, io_err e)

abbrev pub answer_to :
    ExpiringCache → ResolutionMode → Call → ExpiringCache × IoResult (List SocketAddr)
answer_to s mode c =
    if has_any s.addresses && is_fresh c.now s.expiry
    then (s, io_ok s.addresses)
    else renew s mode c.later c.answer

-- The results of some calls, each with its mode, one after the other.
abbrev pub results :
    UpstreamAddress → List (ResolutionMode × Call) → List (IoResult (List SocketAddr))
results a [] = []
results a ((mode, c) ∷ calls) = (call_on a mode c).1 ∷ results (call_on a mode c).0 calls

abbrev pub expected :
    ExpiringCache → List (ResolutionMode × Call) → List (IoResult (List SocketAddr))
expected s [] = []
expected s ((mode, c) ∷ calls) = (answer_to s mode c).1 ∷ expected (answer_to s mode c).0 calls

-- The time and the lifetime of a cache, and when it expires.
data IsExpiry : Option ℕ → Option ℕ → Option ℕ → Type 0 where
  never : IsExpiry none none none
  at_end : {r l e : ℕ} → 0 < l → e ≡ r + l → IsExpiry (some r) (some l) (some e)

record Refines (a : UpstreamAddress) (s : ExpiringCache) : Type 0 where
  addresses : a.resolved_addresses ≡ s.addresses
  expires : IsExpiry a.resolved_time a.ttl s.expiry

not_empty : (xs : List SocketAddr) → not (is_empty xs) ≡ has_any xs
unfolding is_empty
not_empty [] = refl
not_empty (x ∷ xs) = refl

valid_at-is_fresh :
    (now : ℕ) {time ttl expiry : Option ℕ}
    → IsExpiry time ttl expiry
    → valid_at now time ttl ≡ is_fresh now expiry
unfolding valid_at
valid_at-is_fresh now never = refl
valid_at-is_fresh now (at_end h e) = ground arith

module _ (a : UpstreamAddress) (s : ExpiringCache) (r : Refines a s) where
  serves-has_any :
      (now : ℕ) → is_resolved a && is_valid a now ≡ has_any s.addresses && is_fresh now s.expiry
  unfolding is_resolved is_valid
  serves-has_any now =
      ap (λ b. b && valid_at now a.resolved_time a.ttl)
        (not_empty a.resolved_addresses ∙ ap has_any r.addresses)
      ∙ ap (λ b. has_any s.addresses && b) (valid_at-is_fresh now r.expires)

  store-Refines :
      (mode : ResolutionMode) (later : ℕ) (answer : IoResult (List SocketAddr))
      → Refines (store mode later a answer).0 (renew s mode later answer).0
        × ((store mode later a answer).1 ≡ (renew s mode later answer).1)
  unfolding store
  store-Refines mode later (io_ok found) =
      (record { addresses = refl; expires = at_end (omega arith) refl }, refl)
  store-Refines mode later (io_err e) =
      (record { addresses = r.addresses; expires = at_end (omega arith) refl }, refl)

  call_on-Refines :
      (mode : ResolutionMode) (c : Call)
      → Refines (call_on a mode c).0 (answer_to s mode c).0
        × ((call_on a mode c).1 ≡ (answer_to s mode c).1)
  unfolding resolve
  call_on-Refines mode c = elim (Bool-cases (has_any s.addresses && is_fresh c.now s.expiry)) [
    | inl hit ↦
        let hit' = serves-has_any c.now ∙ hit in rw (hit, hit', resolve) (r, ap io_ok r.addresses)
    | inr miss ↦
        let miss' = serves-has_any c.now ∙ miss in
        rw (miss, miss', resolve) (store-Refines mode c.later c.answer)
  ]

results-expected :
    (a : UpstreamAddress) (s : ExpiringCache) (calls : List (ResolutionMode × Call))
    → Refines a s
    → results a calls ≡ expected s calls
results-expected a s [] r = refl
results-expected a s ((mode, c) ∷ calls) r =
    let (r', same) = call_on-Refines a s r mode c in
    ap (λ x. x ∷ results (call_on a mode c).0 calls) same
    ∙ ap (λ xs. (answer_to s mode c).1 ∷ xs)
        (results-expected (call_on a mode c).0 (answer_to s mode c).0 calls r')

-- For any calls one after the other, in any modes and at any times, a new cache gives the results
-- of a plain cache, which holds some addresses and one time at which they expire: it serves them
-- while there are some and this time has not come, and otherwise takes the resolver's answer: a
-- success takes the place of the addresses and expires a minute after it came, and a failure is
-- returned, keeps the addresses and lets them expire three seconds after it came.
pub resolve_refines :
    (name : String) (calls : List (ResolutionMode × Call))
    → results (new name) calls ≡ expected empty_cache calls
unfolding new
resolve_refines name calls =
    results-expected (new name) empty_cache calls (record { addresses = refl; expires = never })
