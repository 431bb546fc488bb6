-- ===== src/Servers/Live/Drained.antt =====
-- servers/mod.rs with servers/protocol/tcp.rs: a server that was started returns after a signal, by
-- events that can happen, since the tasks of its connections end.
use mathlib.Core.List.{map-append}
use tls_proxy_tunnel.Base.{
  ℕ, zero, suc, ◌≡◌, ◌≢◌, refl, sym, ap, ◌∙◌, Bool, true, Option, some, List, [], ◌∷◌, map, Char,
  String, arith, All, All-append, length, get_elem?,
}
use tls_proxy_tunnel.Base.Dict.{Dict}
use tls_proxy_tunnel.Base.Options.{some_of_bind}
use tls_proxy_tunnel.Net.{IoError, IoResult}
use tls_proxy_tunnel.Upstreams.Types.{Upstream}
use tls_proxy_tunnel.Upstreams.Http.{waiting}
use tls_proxy_tunnel.Upstreams.Process.{World}
use tls_proxy_tunnel.Servers.Semaphores.{SemaphoreLib}
use tls_proxy_tunnel.Servers.Types.{Proxy, Server}
use tls_proxy_tunnel.Servers.Tls.{TlsParser}
use tls_proxy_tunnel.Servers.Routing.{route}
use tls_proxy_tunnel.Servers.Builder.{set_upstream}
use tls_proxy_tunnel.Servers.Listener.{Event, accepted, accept_failed, cancelled, ended}
use tls_proxy_tunnel.Servers.Accept.{Inbound, read_snis, accept}
use tls_proxy_tunnel.Servers.Accept
use tls_proxy_tunnel.Servers.Accept.Ends.{IsAnswered, accept_ends}
use tls_proxy_tunnel.Servers.Shutdown.{
  Task, Run, RunEvent, signal, at, step_at, run_step, run, returned, start_task,
}
use tls_proxy_tunnel.Servers.Shutdown.Drain.{ends_of, later, drain_task, drain, run_drains}
use tls_proxy_tunnel.Servers.Live.{start_tasks, start_server}

module _ (lib : SemaphoreLib) where
  length-step_at :
      (token : Bool) (ts : List (Task lib)) (i : ℕ) (e : Event)
      → length (step_at lib token ts i e) ≡ length ts
  unfolding step_at
  length-step_at token [] i e = refl
  length-step_at token (t ∷ ts) zero e = refl
  length-step_at token (t ∷ ts) (suc i) e = ap suc (length-step_at token ts i e)

  length-run : (r : Run lib) (es : List RunEvent) → length (run lib r es).tasks ≡ length r.tasks
  unfolding run run_step
  length-run r [] = refl
  length-run r (signal ∷ es) = length-run (run_step lib r signal) es
  length-run r (at i e ∷ es) =
      length-run (run_step lib r (at i e)) es ∙ length-step_at r.token r.tasks i e

  length-start_tasks :
      (bind : ℕ → IoResult (Unit {0})) (semaphores : List lib.Semaphore) (i : ℕ) (ps : List Proxy)
      (ts : List (Task lib))
      → start_tasks lib bind semaphores i ps ≡ some ts
      → length ts ≡ length ps
  unfolding start_tasks
  length-start_tasks bind semaphores i [] ts h = let e : [] ≡ ts = ground arith in ap length (sym e)
  length-start_tasks bind semaphores i (p ∷ ps) ts h =
      let (s, e, h') = some_of_bind (get_elem? semaphores p.maxclients) _ h in
      let (rest, e', h'') = some_of_bind (start_tasks lib bind semaphores (suc i) ps) _ h' in
      let same : start_task lib p (bind i) s ∷ rest ≡ ts = ground arith in
      ap length (sym same) ∙ ap suc (length-start_tasks bind semaphores (suc i) ps rest e')

-- A connection: what its socket answers, and what happens around it.
pub record Connection (Stream : Type 0) : Type 0 where
  pub inbound : Inbound
  pub world : World Stream

-- The connections of each listener, by their numbers.
abbrev pub Connections : Type 0 → Type 0
Connections Stream = ℕ → ℕ → Connection Stream

abbrev pub of_later : {Stream : Type 0} → Connections Stream → Connections Stream
of_later conns i = conns (suc i)

module _ {Stream : Type 0} (is_alphanumeric : Char → Bool) (env : String → Option String)
    (show_io : IoError → String) (parser : TlsParser) where
  -- The task of a connection has returned, whatever the shared caches hold by then.
  abbrev pub HasReturned : Proxy → Connection Stream → Type 0
  HasReturned p c =
      (u : Dict Upstream)
      → Accept.returned
          (accept is_alphanumeric env show_io parser (set_upstream u p) c.inbound c.world)
        ≢ waiting

  abbrev pub HasReturnedAt : List Proxy → Connections Stream → ℕ → ℕ → Type 0
  HasReturnedAt [] conns i id = ⊥
  HasReturnedAt (p ∷ ps) conns zero id = HasReturned p (conns 0 id)
  HasReturnedAt (p ∷ ps) conns (suc i) id = HasReturnedAt ps (of_later conns) i id

  -- The end of a task needs its return; signals and what the listeners see are free.
  abbrev pub CanHappen : List Proxy → Connections Stream → RunEvent → Type 0
  CanHappen ps conns signal = Unit
  CanHappen ps conns (at i (accepted id)) = Unit
  CanHappen ps conns (at i (accept_failed x)) = Unit
  CanHappen ps conns (at i cancelled) = Unit
  CanHappen ps conns (at i (ended id)) = HasReturnedAt ps conns i id

  -- The sockets of all connections answer.
  abbrev pub AllAnswered : List Proxy → Connections Stream → Type 0
  AllAnswered [] conns = Unit
  AllAnswered (p ∷ ps) conns =
      ((id : ℕ)
        → IsAnswered is_alphanumeric env show_io parser p (conns 0 id).inbound (conns 0 id).world)
      × AllAnswered ps (of_later conns)

  -- The upstreams play no part in the choices.
  HasReturned-IsAnswered :
      (p : Proxy) (c : Connection Stream)
      → IsAnswered is_alphanumeric env show_io parser p c.inbound c.world
      → HasReturned p c
  unfolding set_upstream read_snis route
  HasReturned-IsAnswered p c a u =
      accept_ends is_alphanumeric env show_io parser (set_upstream u p) c.inbound c.world a

  CanHappen-ends_of :
      (p : Proxy) (ps : List Proxy) (conns : Connections Stream) (ids : List ℕ)
      → ((id : ℕ) → HasReturned p (conns 0 id))
      → All (CanHappen (p ∷ ps) conns) (map (at 0) (ends_of ids))
  CanHappen-ends_of p ps conns [] h = tt
  CanHappen-ends_of p ps conns (id ∷ ids) h = (h id, CanHappen-ends_of p ps conns ids h)

  CanHappen-later :
      (p : Proxy) (ps : List Proxy) (conns : Connections Stream) (es : List RunEvent)
      → All (CanHappen ps (of_later conns)) es
      → All (CanHappen (p ∷ ps) conns) (map later es)
  CanHappen-later p ps conns [] h = tt
  CanHappen-later p ps conns (signal ∷ es) h = (tt, CanHappen-later p ps conns es h.1)
  CanHappen-later p ps conns (at i (accepted id) ∷ es) h = (tt, CanHappen-later p ps conns es h.1)
  CanHappen-later p ps conns (at i (accept_failed x) ∷ es) h =
      (tt, CanHappen-later p ps conns es h.1)
  CanHappen-later p ps conns (at i cancelled ∷ es) h = (tt, CanHappen-later p ps conns es h.1)
  CanHappen-later p ps conns (at i (ended id) ∷ es) h = (h.0, CanHappen-later p ps conns es h.1)

  module _ (lib : SemaphoreLib) where
    CanHappen-drain_task :
        (p : Proxy) (ps : List Proxy) (conns : Connections Stream) (t : Task lib)
        → ((id : ℕ) → HasReturned p (conns 0 id))
        → All (CanHappen (p ∷ ps) conns) (map (at 0) (drain_task lib t))
    CanHappen-drain_task p ps conns t h = (
      tt,
      rw (map-append (at 0) (ends_of t.listener.held) (ends_of t.listener.unlimited)) (
          All-append (CanHappen (p ∷ ps) conns) (map (at 0) (ends_of t.listener.held))
            (map (at 0) (ends_of t.listener.unlimited))
            (CanHappen-ends_of p ps conns t.listener.held h)
            (CanHappen-ends_of p ps conns t.listener.unlimited h)),
    )

    drain-CanHappen :
        (ps : List Proxy) (conns : Connections Stream) (ts : List (Task lib))
        → length ts ≡ length ps
        → AllAnswered ps conns
        → All (CanHappen ps conns) (drain lib ts)
    drain-CanHappen ps conns [] e a = tt
    drain-CanHappen [] conns (t ∷ ts) e a = absurd (omega arith)
    drain-CanHappen (p ∷ ps) conns (t ∷ ts) e a =
        All-append (CanHappen (p ∷ ps) conns) (map (at 0) (drain_task lib t))
          (map later (drain lib ts))
          (CanHappen-drain_task p ps conns t (λ id. HasReturned-IsAnswered p (conns 0 id) (a.0 id)))
          (CanHappen-later p ps conns (drain lib ts)
            (drain-CanHappen ps (of_later conns) ts (omega arith) a.1))

    -- If a server was started and the sockets of all connections answer, and with a resolver that
    -- answers each lookup at some time, then from any state that it has reached, a signal, the
    -- token's arrival at each listener and the end of each running connection let `Server::run`
    -- return; and each of these events can happen: the task of such a connection has returned,
    -- whatever the shared caches hold by then.
    pub run_drains-start_server :
        (bind : ℕ → IoResult (Unit {0})) (server : Server) (semaphores : List lib.Semaphore)
        (r : Run lib) (es : List RunEvent) (conns : Connections Stream)
        → start_server lib bind server semaphores ≡ some r
        → AllAnswered server.proxies conns
        → let r' = run lib r es in
          All (CanHappen server.proxies conns) (signal ∷ drain lib r'.tasks)
          × (returned lib (run lib r' (signal ∷ drain lib r'.tasks)) ≡ true)
    unfolding start_server
    run_drains-start_server bind server semaphores r es conns h a =
        let r' = run lib r es in
        let (ts, e, h') = some_of_bind (start_tasks lib bind semaphores 0 server.proxies) _ h in
        let same : ts ≡ r.tasks = ground arith in
        let long : length r'.tasks ≡ length server.proxies =
          length-run lib r es
          ∙ ap length (sym same)
          ∙ length-start_tasks lib bind semaphores 0 server.proxies ts e in
        ((tt, drain-CanHappen server.proxies conns r'.tasks long a), run_drains lib r')
