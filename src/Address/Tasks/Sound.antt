-- ===== src/Address/Tasks/Sound.antt =====
-- servers/upstream_address/mod.rs, `resolve`: what each step of a call keeps, for calls that share one
-- cache.
use tls_proxy_tunnel.Base.{
  ℕ, zero, suc, ◌-◌, ◌≡◌, refl, inl, inr, ◌⊎◌, false, Option, none, some, List, [], ◌∷◌, ltb, All,
  All-weaken, Bool-cases, if◌then◌else◌,
}
use tls_proxy_tunnel.Net.{SocketAddr, IoResult, io_ok, io_err}
use tls_proxy_tunnel.Address.{ResolutionMode, UpstreamAddress, is_resolved, is_empty, select_family}
use tls_proxy_tunnel.Address.Tasks.{
  Task, checking, timing, expiring, serving, looking, failing, failing_ttl, storing, stamping,
  limiting, finished, after_time, after_ttl, after_lookup, advance, Shared, Turn, turn_at,
  take_turn, interleave,
}

unresolved_of : (a : UpstreamAddress) → a.resolved_addresses ≡ [] → is_resolved a ≡ false
unfolding is_resolved is_empty
unresolved_of a e = rw e refl

module _ (mode : ResolutionMode) (P : List SocketAddr → Type 0) where
  -- The lists that a call carries satisfy `P`, and so does the cache once a call relies on it.
  abbrev pub IsSound : UpstreamAddress → Task → Type 0
  IsSound a checking = Unit
  IsSound a timing = P a.resolved_addresses
  IsSound a (expiring r) = P a.resolved_addresses
  IsSound a serving = P a.resolved_addresses
  IsSound a looking = Unit
  IsSound a (failing e) = Unit
  IsSound a (failing_ttl e) = Unit
  IsSound a (storing xs) = P xs
  IsSound a (stamping xs) = P xs
  IsSound a (limiting xs) = P xs
  IsSound a (finished (io_ok xs)) = P xs
  IsSound a (finished (io_err e)) = Unit

  -- The cache is as it was made, or satisfies `P`.
  abbrev IsSoundCache : UpstreamAddress → Type 0
  IsSoundCache a = (a.resolved_addresses ≡ []) ⊎ P a.resolved_addresses

  -- A change of the cache that keeps `P`.
  abbrev Keeps : UpstreamAddress → UpstreamAddress → Type 0
  Keeps a b = P a.resolved_addresses → P b.resolved_addresses

  IsSound-Keeps : (a b : UpstreamAddress) (t : Task) → Keeps a b → IsSound a t → IsSound b t
  IsSound-Keeps a b checking k s = tt
  IsSound-Keeps a b timing k s = k s
  IsSound-Keeps a b (expiring r) k s = k s
  IsSound-Keeps a b serving k s = k s
  IsSound-Keeps a b looking k s = tt
  IsSound-Keeps a b (failing e) k s = tt
  IsSound-Keeps a b (failing_ttl e) k s = tt
  IsSound-Keeps a b (storing xs) k s = s
  IsSound-Keeps a b (stamping xs) k s = s
  IsSound-Keeps a b (limiting xs) k s = s
  IsSound-Keeps a b (finished (io_ok xs)) k s = s
  IsSound-Keeps a b (finished (io_err e)) k s = tt

  -- What the resolver's answers give satisfies `P`.
  abbrev pub IsGood : IoResult (List SocketAddr) → Type 0
  IsGood answer = (found : List SocketAddr) → answer ≡ io_ok found → P (select_family mode found)

  pub record IsStep (a : UpstreamAddress) (r : UpstreamAddress × Task) : Type 0 where
    pub cache : IsSoundCache r.0
    pub keeps : Keeps a r.0
    pub task : IsSound r.0 r.1

  checking-IsSound :
      (a : UpstreamAddress) → IsSoundCache a → IsSound a (if is_resolved a then timing else looking)
  checking-IsSound a (inl e) =
      let unresolved : is_resolved a ≡ false = unresolved_of a e in rw unresolved tt
  checking-IsSound a (inr p) = elim (Bool-cases (is_resolved a)) [
    | inl e ↦ rw e p
    | inr e ↦ rw e tt
  ]

  after_time-IsSound :
      (a : UpstreamAddress) (o : Option ℕ) → P a.resolved_addresses → IsSound a (after_time o)
  unfolding after_time
  after_time-IsSound a none p = tt
  after_time-IsSound a (some r) p = p

  after_ttl-IsSound :
      (a : UpstreamAddress) (now r : ℕ) (o : Option ℕ)
      → P a.resolved_addresses
      → IsSound a (after_ttl now r o)
  unfolding after_ttl
  after_ttl-IsSound a now r none p = tt
  after_ttl-IsSound a now r (some ttl) p = elim (Bool-cases (ltb (now - r) ttl)) [
    | inl e ↦ rw e p
    | inr e ↦ rw e tt
  ]

  advance-IsStep :
      (now : ℕ) (answer : IoResult (List SocketAddr)) (a : UpstreamAddress) (t : Task)
      → IsGood answer
      → IsSoundCache a
      → IsSound a t
      → IsStep a (advance mode now answer a t)
  unfolding advance after_lookup
  advance-IsStep now answer a checking g c s = record {
    cache = c;
    keeps = λ p. p;
    task = checking-IsSound a c;
  }
  advance-IsStep now answer a timing g c s = record {
    cache = c;
    keeps = λ p. p;
    task = after_time-IsSound a a.resolved_time s;
  }
  advance-IsStep now answer a (expiring r) g c s = record {
    cache = c;
    keeps = λ p. p;
    task = after_ttl-IsSound a now r a.ttl s;
  }
  advance-IsStep now answer a serving g c s = record { cache = c; keeps = λ p. p; task = s }
  advance-IsStep now (io_ok found) a looking g c s = record {
    cache = c;
    keeps = λ p. p;
    task = g found refl;
  }
  advance-IsStep now (io_err e) a looking g c s = record { cache = c; keeps = λ p. p; task = tt }
  advance-IsStep now answer a (failing e) g c s = record { cache = c; keeps = λ p. p; task = tt }
  advance-IsStep now answer a (failing_ttl e) g c s = record {
    cache = c;
    keeps = λ p. p;
    task = tt;
  }
  advance-IsStep now answer a (storing xs) g c s = record {
    cache = inr s;
    keeps = λ p. s;
    task = s;
  }
  advance-IsStep now answer a (stamping xs) g c s = record { cache = c; keeps = λ p. p; task = s }
  advance-IsStep now answer a (limiting xs) g c s = record { cache = c; keeps = λ p. p; task = s }
  advance-IsStep now answer a (finished r) g c s = record { cache = c; keeps = λ p. p; task = s }

  pub record IsSoundTurn (a : UpstreamAddress) (r : UpstreamAddress × List Task) : Type 0 where
    pub cache : IsSoundCache r.0
    pub keeps : Keeps a r.0
    pub tasks : All (IsSound r.0) r.1

  All-Keeps :
      (a b : UpstreamAddress) (ts : List Task) → Keeps a b → All (IsSound a) ts → All (IsSound b) ts
  All-Keeps a b ts k = All-weaken (IsSound a) (IsSound b) (λ t. IsSound-Keeps a b t k) ts

  turn_at-IsSoundTurn :
      (t : Turn) (a : UpstreamAddress) (i : ℕ) (ts : List Task)
      → IsGood t.answer
      → IsSoundCache a
      → All (IsSound a) ts
      → IsSoundTurn a (turn_at mode t a i ts)
  unfolding turn_at
  turn_at-IsSoundTurn t a i [] g c s = record { cache = c; keeps = λ p. p; tasks = tt }
  turn_at-IsSoundTurn t a zero (x ∷ xs) g c (s, ss) =
      let step = advance-IsStep t.now t.answer a x g c s in
      record {
        cache = step.cache;
        keeps = step.keeps;
        tasks = (step.task, All-Keeps a (advance mode t.now t.answer a x).0 xs step.keeps ss);
      }
  turn_at-IsSoundTurn t a (suc i) (x ∷ xs) g c (s, ss) =
      let turn = turn_at-IsSoundTurn t a i xs g c ss in
      record {
        cache = turn.cache;
        keeps = turn.keeps;
        tasks = (IsSound-Keeps a (turn_at mode t a i xs).0 x turn.keeps s, turn.tasks);
      }

  pub interleave-IsSound :
      (s : Shared) (ts : List Turn)
      → All (λ t. IsGood t.answer) ts
      → IsSoundCache s.cache
      → All (IsSound s.cache) s.tasks
      → All (IsSound (interleave mode s ts).cache) (interleave mode s ts).tasks
  unfolding interleave take_turn
  interleave-IsSound s [] g c h = h
  interleave-IsSound s (t ∷ ts) (g, gs) c h =
      let turn = turn_at-IsSoundTurn t s.cache t.task s.tasks g c h in
      interleave-IsSound (take_turn mode s t) ts gs turn.cache turn.tasks
