-- ===== src/Servers/Shutdown/Waits.antt =====
-- servers/mod.rs, `Server::run`: what it waits for.
use tls_proxy_tunnel.Base.{
  ℕ, zero, suc, ◌≡◌, ◌≢◌, refl, ap, inl, inr, Bool, true, false, ◌||◌, some, List, [], ◌∷◌, arith,
  All, Option-cases, Bool-cases, is_in,
}
use tls_proxy_tunnel.Net.{would_block, other}
use tls_proxy_tunnel.Servers.Semaphores.{SemaphoreLib}
use tls_proxy_tunnel.Servers.Listener.{
  Status, listening, stopped, broken, Event, accepted, accept_failed, cancelled, ended, remove_id,
  Listener, hold_or_reject, on_accepted, on_failed, loop_step, drop_unlimited, on_ended,
  listen_step,
}
use tls_proxy_tunnel.Servers.Shutdown.{
  is_empty, Task, Run, task_step, step_at, RunEvent, signal, at, run_step, run, is_over, all_over,
  returned,
}

is_in-is_empty : (id : ℕ) (xs : List ℕ) → is_in id xs ≡ true → is_empty xs ≡ false
unfolding is_empty
is_in-is_empty id [] h = absurd (cc)
is_in-is_empty id (x ∷ xs) h = refl

remove_id-is_in :
    (id j : ℕ) (xs ys : List ℕ)
    → remove_id j xs ≡ some ys
    → j ≢ id
    → is_in id xs ≡ true
    → is_in id ys ≡ true
unfolding remove_id
remove_id-is_in id j [] ys h n m = absurd (cc)
remove_id-is_in id j (x ∷ xs) ys h n m = elim (Option-cases (remove_id j xs)) [
  | inl e ↦ ground arith
  | inr (zs, e) ↦ ground (arith, remove_id-is_in id j xs zs e n)
]

module _ (lib : SemaphoreLib) where
  -- A task runs the connection.
  abbrev pub runs : ℕ → Listener lib → Bool
  runs id l = is_in id l.held || is_in id l.unlimited

  on_accepted-runs :
      (h : Bool) (id j : ℕ) (l : Listener lib)
      → runs id l ≡ true
      → runs id (on_accepted lib h j l) ≡ true
  unfolding on_accepted hold_or_reject
  on_accepted-runs true id j l m = ground arith
  on_accepted-runs false id j l m = elim (Option-cases (lib.try_acquire l.semaphore)) [
    | inl e ↦ rw (e, hold_or_reject) m
    | inr (s, e) ↦ rw (e, hold_or_reject) (ground arith)
  ]

  on_ended-runs :
      (id j : ℕ) (l : Listener lib) → j ≢ id → runs id l ≡ true → runs id (on_ended lib j l) ≡ true
  unfolding on_ended drop_unlimited
  on_ended-runs id j l n m = elim (Option-cases (remove_id j l.held)) [
    | inr (rest, e) ↦
        rw (e, on_ended)
          (elim (Bool-cases (is_in id l.held)) [
            | inl x ↦ rw (remove_id-is_in id j l.held rest e n x) refl
            | inr x ↦ ground arith
          ])
    | inl e ↦ elim (Option-cases (remove_id j l.unlimited)) [
      | inr (rest, e') ↦
          rw (e, on_ended, e', drop_unlimited)
            (elim (Bool-cases (is_in id l.unlimited)) [
              | inl x ↦ rw (remove_id-is_in id j l.unlimited rest e' n x) (ground arith)
              | inr x ↦ ground arith
            ])
      | inl e' ↦ rw (e, on_ended, e', drop_unlimited) m
    ]
  ]

  -- The loop alone ends no task.
  loop_step-runs :
      (h : Bool) (st : Status) (id : ℕ) (e : Event) (l : Listener lib)
      → runs id l ≡ true
      → runs id (loop_step lib h st e l) ≡ true
  unfolding loop_step on_failed
  loop_step-runs h listening id (accepted j) l m = on_accepted-runs h id j l m
  loop_step-runs h listening id (accept_failed would_block) l m = m
  loop_step-runs h listening id (accept_failed (other text)) l m = m
  loop_step-runs h listening id cancelled l m = m
  loop_step-runs h listening id (ended j) l m = m
  loop_step-runs h stopped id e l m = m
  loop_step-runs h (broken x) id e l m = m

  task_step-runs :
      (token : Bool) (id : ℕ) (t : Task lib) (e : Event)
      → e ≢ ended id
      → runs id t.listener ≡ true
      → runs id (task_step lib token t e).listener ≡ true
  unfolding task_step listen_step
  task_step-runs true id t (ended j) n m = on_ended-runs id j t.listener (λ e. n (ap ended e)) m
  task_step-runs false id t (ended j) n m = on_ended-runs id j t.listener (λ e. n (ap ended e)) m
  task_step-runs true id t (accepted j) n m =
      loop_step-runs t.is_health t.listener.status id (accepted j) t.listener m
  task_step-runs false id t (accepted j) n m =
      loop_step-runs t.is_health t.listener.status id (accepted j) t.listener m
  task_step-runs true id t (accept_failed x) n m =
      loop_step-runs t.is_health t.listener.status id (accept_failed x) t.listener m
  task_step-runs false id t (accept_failed x) n m =
      loop_step-runs t.is_health t.listener.status id (accept_failed x) t.listener m
  task_step-runs true id t cancelled n m =
      loop_step-runs t.is_health t.listener.status id cancelled t.listener m
  task_step-runs false id t cancelled n m = m

  -- The `i`-th listener runs the connection.
  abbrev pub runs_at : ℕ → ℕ → List (Task lib) → Bool
  runs_at i id [] = false
  runs_at zero id (t ∷ ts) = runs id t.listener
  runs_at (suc i) id (t ∷ ts) = runs_at i id ts

  step_at-runs :
      (token : Bool) (i id j : ℕ) (ts : List (Task lib)) (e : Event)
      → at j e ≢ at i (ended id)
      → runs_at i id ts ≡ true
      → runs_at i id (step_at lib token ts j e) ≡ true
  unfolding step_at
  step_at-runs token i id j [] e n m = m
  step_at-runs token zero id zero (t ∷ ts) e n m =
      task_step-runs token id t e (λ same. n (ap (at 0) same)) m
  step_at-runs token zero id (suc j) (t ∷ ts) e n m = m
  step_at-runs token (suc i) id zero (t ∷ ts) e n m = m
  step_at-runs token (suc i) id (suc j) (t ∷ ts) e n m =
      step_at-runs token i id j ts e (λ same. n (cc)) m

  run-runs :
      (r : Run lib) (es : List RunEvent) (i id : ℕ)
      → All (λ e. e ≢ at i (ended id)) es
      → runs_at i id r.tasks ≡ true
      → runs_at i id (run lib r es).tasks ≡ true
  unfolding run run_step
  run-runs r [] i id n m = m
  run-runs r (signal ∷ es) i id n m = run-runs (run_step lib r signal) es i id n.1 m
  run-runs r (at j e ∷ es) i id n m =
      run-runs (run_step lib r (at j e)) es i id n.1 (step_at-runs r.token i id j r.tasks e n.0 m)

  runs-all_over :
      (i id : ℕ) (ts : List (Task lib)) → runs_at i id ts ≡ true → all_over lib ts ≡ false
  unfolding all_over is_over is_empty
  runs-all_over i id [] m = absurd (cc)
  runs-all_over zero id (t ∷ ts) m = elim (Bool-cases (is_in id t.listener.held)) [
    | inl x ↦ rw (is_in-is_empty id t.listener.held x) (ground arith)
    | inr x ↦ rw (is_in-is_empty id t.listener.unlimited (ground arith)) (ground arith)
  ]
  runs-all_over (suc i) id (t ∷ ts) m = rw (runs-all_over i id ts m) (ground arith)

  -- While some listener runs a connection, `Server::run` has not returned after any events that do
  -- not end this connection, signals included.
  pub run_waits :
      (r : Run lib) (es : List RunEvent) (i id : ℕ)
      → runs_at i id r.tasks ≡ true
      → All (λ e. e ≢ at i (ended id)) es
      → returned lib (run lib r es) ≡ false
  unfolding returned
  run_waits r es i id m n =
      rw (runs-all_over i id (run lib r es).tasks (run-runs r es i id n m)) (ground arith)

  -- With the token not cancelled, `Server::run` has not returned after any events without a signal,
  -- whatever state the listeners are in.
  pub run_needs_signal :
      (r : Run lib) (es : List RunEvent)
      → r.token ≡ false
      → All (λ e. e ≢ signal) es
      → returned lib (run lib r es) ≡ false
  unfolding returned run run_step
  run_needs_signal r [] t n = ground arith
  run_needs_signal r (signal ∷ es) t n = absurd (n.0 refl)
  run_needs_signal r (at j e ∷ es) t n = run_needs_signal (run_step lib r (at j e)) es t n.1
