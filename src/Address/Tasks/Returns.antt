-- ===== src/Address/Tasks/Returns.antt =====
-- servers/upstream_address/mod.rs, `resolve`: every call returns by its own steps, whatever other
-- calls do to the cache in between.
use tls_proxy_tunnel.Base.{
  ℕ, zero, suc, ◌-◌, ◌≤◌, ◌<◌, ◌≡◌, refl, sym, ap, ◌∙◌, subst, Option, none, some, List, [], ◌∷◌,
  String, arith, ◌==◌, ltb, All, get_elem?, replicate, Bool, true, false, Bool-cases, inl, inr,
  if◌then◌else◌,
}
use tls_proxy_tunnel.Net.{SocketAddr, IoResult, io_ok, io_err}
use tls_proxy_tunnel.Address.{ResolutionMode, UpstreamAddress, new, is_resolved}
use tls_proxy_tunnel.Address.Tasks.{
  Task, checking, timing, expiring, serving, looking, failing, failing_ttl, storing, stamping,
  limiting, finished, after_time, after_ttl, after_lookup, advance, Shared, Turn, turn_at,
  take_turn, interleave,
}
use tls_proxy_tunnel.Address.Tasks.Interleaved.{IsResult, interleave-IsResult}

-- How many steps a call still has at most.
abbrev steps_left : Task → ℕ
steps_left checking = 7
steps_left timing = 6
steps_left (expiring r) = 5
steps_left looking = 4
steps_left (storing xs) = 3
steps_left (stamping xs) = 2
steps_left (limiting xs) = 1
steps_left (failing e) = 2
steps_left (failing_ttl e) = 1
steps_left serving = 1
steps_left (finished r) = 0

-- The turns of one call.
abbrev pub turns_of : ℕ → List Turn → ℕ
turns_of j [] = 0
turns_of j (t ∷ ts) = let rest = turns_of j ts in if t.task == j then suc rest else rest

after_checking : (b : Bool) → steps_left (if b then timing else looking) ≤ 6
after_checking true = omega arith
after_checking false = omega arith

steps_left-after_time : (o : Option ℕ) → steps_left (after_time o) ≤ 5
unfolding after_time
steps_left-after_time none = omega arith
steps_left-after_time (some r) = omega arith

after_expiring : (b : Bool) → steps_left (if b then serving else looking) ≤ 4
after_expiring true = omega arith
after_expiring false = omega arith

steps_left-after_ttl : (now r : ℕ) (o : Option ℕ) → steps_left (after_ttl now r o) ≤ 4
unfolding after_ttl
steps_left-after_ttl now r none = omega arith
steps_left-after_ttl now r (some ttl) = after_expiring (ltb (now - r) ttl)

module _ (mode : ResolutionMode) where
  steps_left-after_lookup :
      (answer : IoResult (List SocketAddr)) → steps_left (after_lookup mode answer) ≤ 3
  unfolding after_lookup
  steps_left-after_lookup (io_ok found) = omega arith
  steps_left-after_lookup (io_err e) = omega arith

  steps_left-advance :
      (now : ℕ) (answer : IoResult (List SocketAddr)) (a : UpstreamAddress) (t : Task)
      → steps_left (advance mode now answer a t).1 ≤ steps_left t - 1
  unfolding advance
  steps_left-advance now answer a checking = after_checking (is_resolved a)
  steps_left-advance now answer a timing = steps_left-after_time a.resolved_time
  steps_left-advance now answer a (expiring r) = steps_left-after_ttl now r a.ttl
  steps_left-advance now answer a serving = omega arith
  steps_left-advance now answer a looking = steps_left-after_lookup answer
  steps_left-advance now answer a (failing e) = omega arith
  steps_left-advance now answer a (failing_ttl e) = omega arith
  steps_left-advance now answer a (storing xs) = omega arith
  steps_left-advance now answer a (stamping xs) = omega arith
  steps_left-advance now answer a (limiting xs) = omega arith
  steps_left-advance now answer a (finished r) = omega arith

  -- A call among others, with at most so many steps left.
  record IsWithin (ts : List Task) (j n : ℕ) : Type 0 where
    task : Task
    there : get_elem? ts j ≡ some task
    within : steps_left task ≤ n

  IsWithin-cons :
      (x : Task) (xs : List Task) (j n : ℕ) → IsWithin xs j n → IsWithin (x ∷ xs) (suc j) n
  IsWithin-cons x xs j n w = record { task = w.task; there = w.there; within = w.within }

  -- A call's own turn takes a step off.
  turn_at-own :
      (t : Turn) (a : UpstreamAddress) (ts : List Task) (j n : ℕ)
      → IsWithin ts j n
      → IsWithin (turn_at mode t a j ts).1 j (n - 1)
  unfolding turn_at
  turn_at-own t a [] j n w = absurd (cc (w.there))
  turn_at-own t a (x ∷ xs) zero n w =
      let same : x ≡ w.task = cc (w.there) in
      record {
        task = (advance mode t.now t.answer a x).1;
        there = refl;
        within =
            omega
              (arith, steps_left-advance t.now t.answer a x, w.within, ap (λ y. steps_left y) same);
      }
  turn_at-own t a (x ∷ xs) (suc j) n w =
      IsWithin-cons x (turn_at mode t a j xs).1 j (n - 1)
        (turn_at-own t a xs j n (record { task = w.task; there = w.there; within = w.within }))

  -- No turn adds one.
  turn_at-IsWithin :
      (t : Turn) (a : UpstreamAddress) (i : ℕ) (ts : List Task) (j n : ℕ)
      → IsWithin ts j n
      → IsWithin (turn_at mode t a i ts).1 j n
  unfolding turn_at
  turn_at-IsWithin t a i [] j n w = absurd (cc (w.there))
  turn_at-IsWithin t a zero (x ∷ xs) zero n w =
      let own = turn_at-own t a (x ∷ xs) zero n w in
      record { task = own.task; there = own.there; within = omega (arith, own.within) }
  turn_at-IsWithin t a zero (x ∷ xs) (suc j) n w = record {
    task = w.task;
    there = w.there;
    within = w.within;
  }
  turn_at-IsWithin t a (suc i) (x ∷ xs) zero n w = record {
    task = w.task;
    there = w.there;
    within = w.within;
  }
  turn_at-IsWithin t a (suc i) (x ∷ xs) (suc j) n w =
      IsWithin-cons x (turn_at mode t a i xs).1 j n (
        turn_at-IsWithin t a i xs j n
          (record { task = w.task; there = w.there; within = w.within }))

  interleave-IsWithin :
      (s : Shared) (ts : List Turn) (j n : ℕ)
      → IsWithin s.tasks j n
      → IsWithin (interleave mode s ts).tasks j (n - turns_of j ts)
  unfolding interleave take_turn
  interleave-IsWithin s [] j n w = record {
    task = w.task;
    there = w.there;
    within = omega (arith, w.within);
  }
  interleave-IsWithin s (t ∷ ts) j n w = elim (Bool-cases (t.task == j)) [
    | inl own ↦
        let here : t.task ≡ j = ground arith in
        let turn =
          subst (λ i. IsWithin (turn_at mode t s.cache i s.tasks).1 j (n - 1)) (sym here)
            (turn_at-own t s.cache s.tasks j n w) in
        let w' = interleave-IsWithin (take_turn mode s t) ts j (n - 1) turn in
        record { task = w'.task; there = w'.there; within = rw own (omega (arith, w'.within)) }
    | inr other ↦ rw other (
        interleave-IsWithin (take_turn mode s t) ts j n
          (turn_at-IsWithin t s.cache t.task s.tasks j n w))
  ]

replicate-checking :
    (calls j : ℕ) → j < calls → get_elem? (replicate calls checking) j ≡ some checking
replicate-checking zero j h = absurd (omega arith)
replicate-checking (suc calls) zero h = refl
replicate-checking (suc calls) (suc j) h = replicate-checking calls j (omega arith)

finished_of : (t : Task) → steps_left t ≤ 0 → (r : IoResult (List SocketAddr)) × (t ≡ finished r)
finished_of (finished r) h = (r, refl)
finished_of checking h = absurd (omega arith)
finished_of timing h = absurd (omega arith)
finished_of (expiring r) h = absurd (omega arith)
finished_of serving h = absurd (omega arith)
finished_of looking h = absurd (omega arith)
finished_of (failing e) h = absurd (omega arith)
finished_of (failing_ttl e) h = absurd (omega arith)
finished_of (storing xs) h = absurd (omega arith)
finished_of (stamping xs) h = absurd (omega arith)
finished_of (limiting xs) h = absurd (omega arith)

All-get_elem? :
    (P : Task → Type 0) (ts : List Task) (j : ℕ) (t : Task)
    → All P ts
    → get_elem? ts j ≡ some t
    → P t
All-get_elem? P [] j t h e = absurd (cc)
All-get_elem? P (x ∷ xs) zero t h e = let same : x ≡ t = cc in rw (← same) h.0
All-get_elem? P (x ∷ xs) (suc j) t h e = All-get_elem? P xs j t h.1 e

-- When any number of calls of `resolve` share a new cache in one mode and go on lock by lock in any
-- order, a call that has had seven turns has returned, whatever the others wrote in between, with
-- an error or with the mode's share of one successful answer that the resolver gave in some turn.
pub interleave_returns :
    (mode : ResolutionMode) (name : String) (calls j : ℕ) (ts : List Turn)
    → j < calls
    → 7 ≤ turns_of j ts
    → let s : Shared = record { cache = new name; tasks = replicate calls checking } in
      (r : IoResult (List SocketAddr)) × (get_elem? (interleave mode s ts).tasks j
        ≡ some (finished r))
      × IsResult mode ts (finished r)
interleave_returns mode name calls j ts h enough =
    let s : Shared = record { cache = new name; tasks = replicate calls checking } in
    let w =
      interleave-IsWithin mode s ts j 7
        (record { task = checking; there = replicate-checking calls j h; within = omega arith }) in
    let (r, e) = finished_of w.task (omega (arith, w.within)) in
    let there = w.there ∙ ap (λ t. some t) e in
    (
      r,
      there,
      All-get_elem? (IsResult mode ts) (interleave mode s ts).tasks j (finished r)
          (interleave-IsResult mode name calls ts) there,
    )
