-- ===== src/Servers/Shutdown/Drain.antt =====
-- servers/mod.rs, `Server::run`: the events that end a server.
use tls_proxy_tunnel.Base.{
  ℕ, suc, ◌≡◌, refl, ap, ◌∙◌, true, false, none, some, List, [], ◌∷◌, ◌++◌, map, arith,
}
use tls_proxy_tunnel.Servers.Semaphores.{SemaphoreLib}
use tls_proxy_tunnel.Servers.Listener.{
  Event, cancelled, ended, remove_id, Listener, loop_step, drop_unlimited, on_ended, listen_step,
}
use tls_proxy_tunnel.Servers.Shutdown.{
  is_listening, is_empty, Task, Run, task_step, step_at, RunEvent, signal, at, run_step, run,
  is_over, all_over, returned,
}

-- The events that end a listener: its loop sees the token, and its tasks return.
abbrev pub ends_of : List ℕ → List Event
ends_of [] = []
ends_of (id ∷ ids) = ended id ∷ ends_of ids

abbrev pub later : RunEvent → RunEvent
later signal = signal
later (at i e) = at (suc i) e

module _ (lib : SemaphoreLib) where
  abbrev pub drain_task : Task lib → List Event
  drain_task t = cancelled ∷ ends_of t.listener.held ++ ends_of t.listener.unlimited

  abbrev pub drain : List (Task lib) → List RunEvent
  drain [] = []
  drain (t ∷ ts) = map (at 0) (drain_task t) ++ map later (drain ts)

  -- A task that is offered some events with the token cancelled.
  task_run : Task lib → List Event → Task lib
  unfolding task_step
  task_run t [] = t
  task_run t (e ∷ es) = task_run (task_step lib true t e) es

  task_run-append :
      (t : Task lib) (es fs : List Event) → task_run t (es ++ fs) ≡ task_run (task_run t es) fs
  unfolding task_run
  task_run-append t [] fs = refl
  task_run-append t (e ∷ es) fs = task_run-append (task_step lib true t e) es fs

  remove_first : (id : ℕ) (ids : List ℕ) → remove_id id (id ∷ ids) ≡ some ids
  unfolding remove_id
  remove_first id ids = ground arith

  on_ended_held :
      (l : Listener lib) (id : ℕ) (ids : List ℕ)
      → l.held ≡ id ∷ ids
      → ((on_ended lib id l).held ≡ ids)
        × ((on_ended lib id l).unlimited ≡ l.unlimited)
        × ((on_ended lib id l).status ≡ l.status)
  unfolding on_ended
  on_ended_held l id ids h =
      let e = ap (remove_id id) h ∙ remove_first id ids in
      (rw (e, on_ended) refl, rw (e, on_ended) refl, rw (e, on_ended) refl)

  on_ended_unlimited :
      (l : Listener lib) (id : ℕ) (ids : List ℕ)
      → l.held ≡ []
      → l.unlimited ≡ id ∷ ids
      → ((on_ended lib id l).held ≡ [])
        × ((on_ended lib id l).unlimited ≡ ids)
        × ((on_ended lib id l).status ≡ l.status)
  unfolding on_ended drop_unlimited remove_id
  on_ended_unlimited l id ids h u =
      let n : remove_id id l.held ≡ none = ap (remove_id id) h in
      let e = ap (remove_id id) u ∙ remove_first id ids in
      (
        rw (n, on_ended, e, drop_unlimited) h,
        rw (n, on_ended, e, drop_unlimited) refl,
        rw (n, on_ended, e, drop_unlimited) refl,
      )

  task_run-held :
      (t : Task lib) (ids : List ℕ)
      → t.listener.held ≡ ids
      → ((task_run t (ends_of ids)).listener.held ≡ [])
        × ((task_run t (ends_of ids)).listener.unlimited ≡ t.listener.unlimited)
        × ((task_run t (ends_of ids)).listener.status ≡ t.listener.status)
  unfolding task_run task_step listen_step
  task_run-held t [] h = (h, refl, refl)
  task_run-held t (id ∷ ids) h =
      let (a, b, c) = on_ended_held t.listener id ids h in
      let (a', b', c') = task_run-held (record t { listener = on_ended lib id t.listener }) ids a in
      (a', b' ∙ b, c' ∙ c)

  task_run-unlimited :
      (t : Task lib) (ids : List ℕ)
      → t.listener.held ≡ []
      → t.listener.unlimited ≡ ids
      → ((task_run t (ends_of ids)).listener.held ≡ [])
        × ((task_run t (ends_of ids)).listener.unlimited ≡ [])
        × ((task_run t (ends_of ids)).listener.status ≡ t.listener.status)
  unfolding task_run task_step listen_step
  task_run-unlimited t [] h u = (h, u, refl)
  task_run-unlimited t (id ∷ ids) h u =
      let (a, b, c) = on_ended_unlimited t.listener id ids h u in
      let (a', b', c') =
        task_run-unlimited (record t { listener = on_ended lib id t.listener }) ids a b in
      (a', b', c' ∙ c)

  cancel_stops :
      (t : Task lib)
      → (is_listening (task_step lib true t cancelled).listener.status ≡ false)
        × ((task_step lib true t cancelled).listener.held ≡ t.listener.held)
        × ((task_step lib true t cancelled).listener.unlimited ≡ t.listener.unlimited)
  unfolding task_step listen_step loop_step is_listening
  cancel_stops t = (ground arith, ground arith, ground arith)

  is_over_of :
      (t : Task lib)
      → is_listening t.listener.status ≡ false
      → t.listener.held ≡ []
      → t.listener.unlimited ≡ []
      → is_over lib t ≡ true
  unfolding is_over is_empty
  is_over_of t s h u = rw (s, ap is_empty h, ap is_empty u) refl

  drain_task_over : (t : Task lib) → is_over lib (task_run t (drain_task t)) ≡ true
  unfolding task_run
  drain_task_over t =
      let held = t.listener.held in
      let unlimited = t.listener.unlimited in
      let stopped_task = task_step lib true t cancelled in
      let (s, h, u) = cancel_stops t in
      let served = task_run stopped_task (ends_of held) in
      let (h₁, u₁, s₁) = task_run-held stopped_task held h in
      let (h₂, u₂, s₂) = task_run-unlimited served unlimited h₁ (u₁ ∙ u) in
      ap (is_over lib) (task_run-append stopped_task (ends_of held) (ends_of unlimited))
      ∙ is_over_of (task_run served (ends_of unlimited)) (ap is_listening (s₂ ∙ s₁) ∙ s) h₂ u₂

  -- The first task takes its own events, and the others take theirs.
  run_here :
      (t : Task lib) (ts : List (Task lib)) (es : List Event)
      → run lib (record { token = true; tasks = t ∷ ts }) (map (at 0) es)
        ≡ record { token = true; tasks = task_run t es ∷ ts }
  unfolding run run_step step_at task_run
  run_here t ts [] = refl
  run_here t ts (e ∷ es) = run_here (task_step lib true t e) ts es

  run_later :
      (t : Task lib) (ts : List (Task lib)) (es : List RunEvent)
      → run lib (record { token = true; tasks = t ∷ ts }) (map later es) ≡ record {
        token = true;
        tasks = t ∷ (run lib (record { token = true; tasks = ts }) es).tasks;
      }
  unfolding run run_step step_at
  run_later t ts [] = refl
  run_later t ts (signal ∷ es) = run_later t ts es
  run_later t ts (at i e ∷ es) = run_later t (step_at lib true ts i e) es

  run-append :
      (r : Run lib) (es fs : List RunEvent) → run lib r (es ++ fs) ≡ run lib (run lib r es) fs
  unfolding run
  run-append r [] fs = refl
  run-append r (e ∷ es) fs = run-append (run_step lib r e) es fs

  drain_over :
      (ts : List (Task lib))
      → all_over lib (run lib (record { token = true; tasks = ts }) (drain ts)).tasks ≡ true
  unfolding all_over run
  drain_over [] = refl
  drain_over (t ∷ ts) =
      let done = task_run t (drain_task t) in
      let parts =
        run-append (record { token = true; tasks = t ∷ ts }) (map (at 0) (drain_task t))
          (map later (drain ts))
        ∙ ap (λ r. run lib r (map later (drain ts))) (run_here t ts (drain_task t))
        ∙ run_later done ts (drain ts) in
      ap (λ (r : Run lib). all_over lib r.tasks) parts ∙ rw (drain_task_over t, drain_over ts) refl

  run-token : (r : Run lib) (es : List RunEvent) → r.token ≡ true → (run lib r es).token ≡ true
  unfolding run run_step
  run-token r [] t = t
  run-token r (signal ∷ es) t = run-token (run_step lib r signal) es refl
  run-token r (at i e ∷ es) t = run-token (run_step lib r (at i e)) es t

  -- From any state of the server, a signal, then the token's arrival at each listener and the end
  -- of each of its running connections, let `Server::run` return.
  pub run_drains : (r : Run lib) → returned lib (run lib r (signal ∷ drain r.tasks)) ≡ true
  unfolding returned run run_step
  run_drains r =
      let s : Run lib = record { token = true; tasks = r.tasks } in
      rw (run-token s (drain r.tasks) refl) (drain_over r.tasks)
