-- ===== src/Address/Tasks/Alone.antt =====
-- servers/upstream_address/mod.rs, `resolve`: the steps of a call that no other call interrupts.
use tls_proxy_tunnel.Base.{
  ℕ, zero, suc, ◌-◌, ◌≡◌, refl, ◌∙◌, inl, inr, Bool, true, false, ◌&&◌, List, Option, none, some,
  ltb, if◌then◌else◌, Bool-cases,
}
use tls_proxy_tunnel.Net.{SocketAddr, IoResult, io_ok, io_err}
use tls_proxy_tunnel.Address.{
  ResolutionMode, UpstreamAddress, valid_at, is_resolved, is_valid, store, resolve,
}
use tls_proxy_tunnel.Address.Tasks.{
  Task, checking, timing, expiring, looking, serving, finished, after_time, after_ttl, after_lookup,
  advance, time_of, alone,
}

module _ (mode : ResolutionMode) (now later : ℕ) (answer : IoResult (List SocketAddr))
    (a : UpstreamAddress) where
  -- A call that has returned.
  returned : UpstreamAddress × IoResult (List SocketAddr) → UpstreamAddress × Task
  returned r = (r.0, finished r.1)

  -- What a call makes of the answer to whether the cache serves.
  outcome : Bool → UpstreamAddress × IoResult (List SocketAddr)
  outcome valid = if valid then (a, io_ok a.resolved_addresses) else store mode later a answer

  alone-finished :
      (found : IoResult (List SocketAddr)) (n : ℕ) (b : UpstreamAddress)
      (r : IoResult (List SocketAddr))
      → alone mode now later found n (b, finished r) ≡ (b, finished r)
  unfolding alone advance
  alone-finished found zero b r = refl
  alone-finished found (suc n) b r = alone-finished found n b r

  alone-looking :
      (n : ℕ) (found : IoResult (List SocketAddr))
      → alone mode now later found (suc (suc (suc (suc n)))) (a, looking)
        ≡ returned (store mode later a found)
  unfolding alone advance time_of after_lookup store returned
  alone-looking n (io_ok found) = alone-finished (io_ok found) n _ _
  alone-looking n (io_err e) = alone-finished (io_err e) (suc n) _ _

  alone-serving :
      (n : ℕ)
      → alone mode now later answer (suc n) (a, serving)
        ≡ (a, finished (io_ok a.resolved_addresses))
  unfolding alone advance
  alone-serving n = alone-finished answer n a (io_ok a.resolved_addresses)

  alone-expiring :
      (n r : ℕ)
      → alone mode now later answer (suc n) (a, expiring r)
        ≡ alone mode now later answer n (a, after_ttl now r a.ttl)
  unfolding alone advance time_of
  alone-expiring n r = refl

  alone-timing :
      (n : ℕ)
      → alone mode now later answer (suc n) (a, timing)
        ≡ alone mode now later answer n (a, after_time a.resolved_time)
  unfolding alone advance time_of
  alone-timing n = refl

  alone-after_ttl :
      (r : ℕ) (o : Option ℕ)
      → alone mode now later answer 4 (a, after_ttl now r o)
        ≡ returned (outcome (valid_at now (some r) o))
  unfolding after_ttl valid_at outcome returned
  alone-after_ttl r none = alone-looking 0 answer
  alone-after_ttl r (some ttl) = elim (Bool-cases (ltb (now - r) ttl)) [
    | inl e ↦ rw e (alone-serving 3)
    | inr e ↦ rw e (alone-looking 0 answer)
  ]

  alone-after_time :
      (o : Option ℕ)
      → alone mode now later answer 5 (a, after_time o) ≡ returned (outcome (valid_at now o a.ttl))
  unfolding after_time valid_at outcome
  alone-after_time none = alone-looking 1 answer
  alone-after_time (some r) = alone-expiring 4 r ∙ alone-after_ttl r a.ttl

  alone-checked :
      (b : Bool)
      → alone mode now later answer 6 (a, (if b then timing else looking))
        ≡ returned (outcome (b && is_valid a now))
  unfolding outcome is_valid
  alone-checked false = alone-looking 2 answer
  alone-checked true = alone-timing 5 ∙ alone-after_time a.resolved_time

-- A call of `resolve` that no other call interrupts, with its checks at `now` and its answer and
-- writes at `later`, has returned after seven steps, with the cache and the result of the
-- uninterrupted `resolve`.
pub alone-resolve :
    (a : UpstreamAddress) (mode : ResolutionMode) (now later : ℕ)
    (answer : IoResult (List SocketAddr))
    → let r = resolve a mode now later answer in
      alone mode now later answer 7 (a, checking) ≡ (r.0, finished r.1)
unfolding alone advance time_of resolve outcome returned
alone-resolve a mode now later answer = alone-checked mode now later answer a (is_resolved a)
