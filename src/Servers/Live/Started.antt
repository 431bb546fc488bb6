-- ===== src/Servers/Live/Started.antt =====
-- servers/mod.rs: a server that was built can be started, and its semaphores stay in balance with
-- the connections that its listeners hold.
use tls_proxy_tunnel.Base.{
  ℕ, zero, suc, ◌≡◌, refl, ap, Bool, true, false, some, List, [], ◌∷◌, arith, length, get_elem?,
  is_one_of,
}
use tls_proxy_tunnel.Base.Dict.{Dict}
use tls_proxy_tunnel.Net.{IoResult, io_ok, io_err, would_block, other}
use tls_proxy_tunnel.Upstreams.Types.{Upstream}
use tls_proxy_tunnel.Servers.Semaphores.{SemaphoreLib}
use tls_proxy_tunnel.Servers.Types.{Proxy}
use tls_proxy_tunnel.Servers.Builder.Settings.{Setting, proxy_of, proxies_from, HasPermits}
use tls_proxy_tunnel.Servers.Listener.{
  Event, accepted, accept_failed, cancelled, ended, Listener, start, listen_step, loop_step,
  on_accepted, on_failed,
}
use tls_proxy_tunnel.Servers.Listener.Capacity.{IsBalanced, step-refines, on_ended-refines}
use tls_proxy_tunnel.Servers.Shutdown.{
  Task, Run, start_listener, start_task, task_step, step_at, RunEvent, signal, at, run_step, run,
}
use tls_proxy_tunnel.Servers.Live.{start_tasks}

module _ (lib : SemaphoreLib) where
  open lib use {Semaphore, available_permits}

  -- Each listener's free permits and held connections are its setting's limit together.
  abbrev pub Balanced : List Setting → List (Task lib) → Type 0
  Balanced [] [] = Unit
  Balanced (x ∷ xs) (t ∷ ts) = IsBalanced lib x.config.maxclients t.listener × Balanced xs ts
  Balanced _ _ = ⊥

  listen_step-IsBalanced :
      (limit : ℕ) (h : Bool) (l : Listener lib) (e : Event)
      → IsBalanced lib limit l
      → IsBalanced lib limit (listen_step lib h l e)
  unfolding listen_step loop_step on_accepted on_failed
  listen_step-IsBalanced limit false l e b = (step-refines lib limit l e b).1
  listen_step-IsBalanced limit true l (ended id) b = (on_ended-refines lib limit id l b).1
  listen_step-IsBalanced limit true l (accepted id) b = ground arith
  listen_step-IsBalanced limit true l cancelled b = ground arith
  listen_step-IsBalanced limit true l (accept_failed would_block) b = ground arith
  listen_step-IsBalanced limit true l (accept_failed (other text)) b = ground arith

  task_step-IsBalanced :
      (limit : ℕ) (token : Bool) (t : Task lib) (e : Event)
      → IsBalanced lib limit t.listener
      → IsBalanced lib limit (task_step lib token t e).listener
  unfolding task_step
  task_step-IsBalanced limit true t e b = listen_step-IsBalanced limit t.is_health t.listener e b
  task_step-IsBalanced limit false t cancelled b = b
  task_step-IsBalanced limit false t (accepted id) b =
      listen_step-IsBalanced limit t.is_health t.listener (accepted id) b
  task_step-IsBalanced limit false t (accept_failed x) b =
      listen_step-IsBalanced limit t.is_health t.listener (accept_failed x) b
  task_step-IsBalanced limit false t (ended id) b =
      listen_step-IsBalanced limit t.is_health t.listener (ended id) b

  step_at-Balanced :
      (xs : List Setting) (token : Bool) (ts : List (Task lib)) (i : ℕ) (e : Event)
      → Balanced xs ts
      → Balanced xs (step_at lib token ts i e)
  unfolding step_at
  step_at-Balanced [] token [] i e b = tt
  step_at-Balanced [] token (t ∷ ts) i e b = absurd b
  step_at-Balanced (x ∷ xs) token [] i e b = absurd b
  step_at-Balanced (x ∷ xs) token (t ∷ ts) zero e b =
      (task_step-IsBalanced x.config.maxclients token t e b.0, b.1)
  step_at-Balanced (x ∷ xs) token (t ∷ ts) (suc i) e b = (b.0, step_at-Balanced xs token ts i e b.1)

  pub run-Balanced :
      (xs : List Setting) (r : Run lib) (es : List RunEvent)
      → Balanced xs r.tasks
      → Balanced xs (run lib r es).tasks
  unfolding run run_step
  run-Balanced xs r [] b = b
  run-Balanced xs r (signal ∷ es) b = run-Balanced xs (run_step lib r signal) es b
  run-Balanced xs r (at i e ∷ es) b =
      run-Balanced xs (run_step lib r (at i e)) es (step_at-Balanced xs r.token r.tasks i e b)

  start_listener-same :
      (b : Bool) (bound : IoResult (Unit {0})) (l : Listener lib)
      → ((start_listener lib b bound l).semaphore ≡ l.semaphore)
        × ((start_listener lib b bound l).held ≡ l.held)
  unfolding start_listener
  start_listener-same false bound l = (refl, refl)
  start_listener-same true (io_ok u) l = (refl, refl)
  start_listener-same true (io_err e) l = (refl, refl)

  start_task-IsBalanced :
      (p : Proxy) (bound : IoResult (Unit {0})) (s : Semaphore) (limit : ℕ)
      → available_permits s ≡ limit
      → IsBalanced lib limit (start_task lib p bound s).listener
  unfolding start_task start
  start_task-IsBalanced p bound s limit e =
      let (a, b) =
        start_listener-same (is_one_of p.protocol ("tcp" ∷ "tcp4" ∷ "tcp6" ∷ [])) bound
          (start lib s) in
      omega (arith, ap available_permits a, ap length b)

  -- The semaphores that follow the first `i`, which belong to earlier listeners.
  abbrev pub Follows : ℕ → List Semaphore → List Semaphore → Type 0
  Follows zero all rest = all ≡ rest
  Follows (suc i) [] rest = ⊥
  Follows (suc i) (s ∷ all) rest = Follows i all rest

  get-Follows :
      (i : ℕ) (all rest : List Semaphore) (s : Semaphore)
      → Follows i all (s ∷ rest)
      → (get_elem? all i ≡ some s) × Follows (suc i) all rest
  get-Follows zero [] rest s f = absurd (cc)
  get-Follows zero (t ∷ all) rest s f = (ground arith, ground arith)
  get-Follows (suc i) [] rest s f = absurd f
  get-Follows (suc i) (t ∷ all) rest s f = get-Follows i all rest s f

  pub start_tasks-Balanced :
      (bind : ℕ → IoResult (Unit {0})) (u : Dict Upstream) (all rest : List Semaphore) (i : ℕ)
      (xs : List Setting)
      → Follows i all rest
      → HasPermits lib xs rest
      → (ts : List (Task lib)) × (start_tasks lib bind all i (proxies_from u i xs) ≡ some ts)
        × Balanced xs ts
  unfolding start_tasks
  start_tasks-Balanced bind u all rest i [] f h = ([], refl, tt)
  start_tasks-Balanced bind u all [] i (x ∷ xs) f h = absurd h
  start_tasks-Balanced bind u all (s ∷ rest) i (x ∷ xs) f h =
      let (e, f') = get-Follows i all rest s f in
      let (ts, e', b) = start_tasks-Balanced bind u all rest (suc i) xs f' h.1 in
      let t = start_task lib (proxy_of u i x) (bind i) s in
      (
        t ∷ ts,
        rw (e, e') refl,
        (start_task-IsBalanced (proxy_of u i x) (bind i) s x.config.maxclients h.0, b),
      )
