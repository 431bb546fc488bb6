-- ===== src/Servers/Listener/Capacity.antt =====
-- servers/protocol/tcp.rs, `proxy`, beside a machine that counts connections and has no
-- semaphore.
use tls_proxy_tunnel.Base.{
  ℕ, suc, ◌+◌, ◌≤◌, ◌≡◌, refl, sym, ap, subst, ◌∙◌, ◌⊎◌, inl, inr, false, none, some, List, [], ◌∷◌,
  arith, ltb, ◌==◌, if◌then◌else◌, length, Option-cases, Bool-cases,
}
use tls_proxy_tunnel.Net.{IoError, would_block, other}
use tls_proxy_tunnel.Upstreams.Health.{active}
use tls_proxy_tunnel.Servers.Semaphores.{SemaphoreLib}
use tls_proxy_tunnel.Servers.Listener.{
  start, Status, listening, stopped, broken, Event, accepted, accept_failed, cancelled, ended,
  remove_id, Listener, hold_or_reject, on_accepted, on_failed, loop_step, drop_unlimited, on_ended,
  listen_step, listen,
}

-- The abstract machine: the running connections, the rejected ones and whether the loop runs.
pub record Server : Type 0 where
  pub held : List ℕ
  pub rejected : List ℕ
  pub status : Status

-- A new connection is held if fewer than `limit` are, and rejected otherwise.
abbrev pub admit : ℕ → ℕ → Server → Server
admit limit id s =
    if ltb (length s.held) limit
    then record s { held = id ∷ s.held }
    else record s { rejected = id ∷ s.rejected }

abbrev pub without : ℕ → List ℕ → List ℕ
without id xs = elim (remove_id id xs) [ none ↦ xs | some ys ↦ ys ]

-- Only a listening server accepts, fails or stops.
abbrev pub if_listening : Status → Server → Server → Server
if_listening listening s t = s
if_listening stopped s t = t
if_listening (broken e) s t = t

abbrev pub spec_step : ℕ → Server → Event → Server
spec_step limit s (ended id) = record s { held = without id s.held }
spec_step limit s (accepted id) = if_listening s.status (admit limit id s) s
spec_step limit s (accept_failed would_block) = s
spec_step limit s (accept_failed (other text)) =
    if_listening s.status (record s { status = broken (other text) }) s
spec_step limit s cancelled = if_listening s.status (record s { status = stopped }) s

abbrev pub spec : ℕ → Server → List Event → Server
spec limit s [] = s
spec limit s (e ∷ es) = spec limit (spec_step limit s e) es

abbrev pub new_server : Server
new_server = record { held = []; rejected = []; status = listening }

remove_id-length :
    (id : ℕ) (xs ys : List ℕ) → remove_id id xs ≡ some ys → length xs ≡ suc (length ys)
unfolding remove_id
remove_id-length id [] ys h = absurd (cc)
remove_id-length id (x ∷ xs) ys h = elim (Bool-cases (x == id)) [
  | inl e ↦ let same : xs ≡ ys = ground arith in ap (λ zs. suc (length zs)) same
  | inr e ↦ elim (Option-cases (remove_id id xs)) [
    | inl n ↦ ground arith
    | inr (zs, k) ↦
        let same : x ∷ zs ≡ ys = ground arith in
        ap suc (remove_id-length id xs zs k) ∙ ap (λ us. suc (length us)) same
  ]
]

pub Status-cases :
    (s : Status) → (s ≡ listening) ⊎ ((s ≡ stopped) ⊎ ((e : IoError) × (s ≡ broken e)))
Status-cases listening = inl refl
Status-cases stopped = inr (inl refl)
Status-cases (broken e) = inr (inr (e, refl))

module _ (lib : SemaphoreLib) where
  open lib use {
    Semaphore, available_permits, try_acquire, try_acquire_some, try_acquire_none,
    available-release,
  }

  -- What the loop's state is of the abstract one.
  abbrev pub forget : Listener lib → Server
  forget l = record { held = l.held; rejected = l.rejected; status = l.status }

  -- The permits that are left.
  abbrev pub IsBalanced : ℕ → Listener lib → Type 0
  IsBalanced limit l = available_permits l.semaphore + length l.held ≡ limit

  hold_or_reject-refines :
      (limit id : ℕ) (l : Listener lib)
      → IsBalanced limit l
      → (forget (on_accepted lib false id l) ≡ admit limit id (forget l))
        × IsBalanced limit (on_accepted lib false id l)
  unfolding on_accepted
  hold_or_reject-refines limit id l b = elim (Option-cases (try_acquire l.semaphore)) [
    | inl e ↦
        let empty = try_acquire_none l.semaphore e in
        (rw (e, hold_or_reject) (ground arith), rw (e, hold_or_reject) b)
    | inr (s, e) ↦
        let one = try_acquire_some l.semaphore s e in
        (rw (e, hold_or_reject) (ground arith), rw (e, hold_or_reject) (omega arith))
  ]

  drop_unlimited-keeps :
      (limit id : ℕ) (l : Listener lib)
      → IsBalanced limit l
      → (forget (drop_unlimited lib id l) ≡ forget l) × IsBalanced limit (drop_unlimited lib id l)
  unfolding drop_unlimited
  drop_unlimited-keeps limit id l b = elim (Option-cases (remove_id id l.unlimited)) [
    | inl e ↦ (rw (e, drop_unlimited) refl, rw (e, drop_unlimited) b)
    | inr (rest, e) ↦ (rw (e, drop_unlimited) refl, rw (e, drop_unlimited) b)
  ]

  pub on_ended-refines :
      (limit id : ℕ) (l : Listener lib)
      → IsBalanced limit l
      → (forget (on_ended lib id l) ≡ record (forget l) { held = without id l.held })
        × IsBalanced limit (on_ended lib id l)
  unfolding on_ended drop_unlimited
  on_ended-refines limit id l b = elim (Option-cases (remove_id id l.held)) [
    | inl e ↦
        let (same, balanced) = drop_unlimited-keeps limit id l b in
        let absent : without id l.held ≡ l.held = (rw (e, without) refl) in
        (
          rw (e, on_ended) (same ∙ ap (λ h. record (forget l) { held = h }) (sym absent)),
          rw (e, on_ended) balanced,
        )
    | inr (rest, e) ↦
        let one = remove_id-length id l.held rest e in
        let more = available-release l.semaphore in
        (rw (e, on_ended, without) refl, rw (e, on_ended) (omega arith))
  ]

  pub step-refines :
      (limit : ℕ) (l : Listener lib) (e : Event)
      → IsBalanced limit l
      → (forget (listen_step lib false l e) ≡ spec_step limit (forget l) e)
        × IsBalanced limit (listen_step lib false l e)
  unfolding listen_step loop_step on_failed
  step-refines limit l (ended id) b = on_ended-refines limit id l b
  step-refines limit l (accepted id) b = elim (Status-cases l.status) [
    | inl h ↦
        let (same, balanced) = hold_or_reject-refines limit id l b in
        let taken : loop_step lib false l.status (accepted id) l ≡ on_accepted lib false id l =
          ap (λ st. loop_step lib false st (accepted id) l) h in
        (
          ap forget taken
              ∙ same
              ∙ sym (ap (λ st. if_listening st (admit limit id (forget l)) (forget l)) h),
          subst (IsBalanced limit) (sym taken) balanced,
        )
    | inr (inl h) ↦ (ground arith, ground arith)
    | inr (inr (x, h)) ↦ (ground arith, ground arith)
  ]
  step-refines limit l cancelled b = elim (Status-cases l.status) [
    | inl h ↦ (ground arith, ground arith)
    | inr (inl h) ↦ (ground arith, ground arith)
    | inr (inr (x, h)) ↦ (ground arith, ground arith)
  ]
  step-refines limit l (accept_failed would_block) b = elim (Status-cases l.status) [
    | inl h ↦ (ground arith, ground arith)
    | inr (inl h) ↦ (ground arith, ground arith)
    | inr (inr (x, h)) ↦ (ground arith, ground arith)
  ]
  step-refines limit l (accept_failed (other text)) b = elim (Status-cases l.status) [
    | inl h ↦ (ground arith, ground arith)
    | inr (inl h) ↦ (ground arith, ground arith)
    | inr (inr (x, h)) ↦ (ground arith, ground arith)
  ]

  -- From a state in which the free permits and the held connections are `limit` together, the
  -- accept loop of a server without a health upstream does, for any events and any implementation
  -- of the semaphore, what a machine does that holds a new connection if fewer than `limit` are
  -- held and rejects it otherwise; and the free permits and the held connections stay `limit`
  -- together.
  pub listen-refines :
      (limit : ℕ) (l : Listener lib) (es : List Event)
      → IsBalanced limit l
      → (forget (listen lib false l es) ≡ spec limit (forget l) es)
        × IsBalanced limit (listen lib false l es)
  unfolding listen
  listen-refines limit l [] b = (refl, b)
  listen-refines limit l (e ∷ es) b =
      let (same, balanced) = step-refines limit l e b in
      let (later, kept) = listen-refines limit (listen_step lib false l e) es balanced in
      (later ∙ ap (λ s. spec limit s es) same, kept)

  -- If a listener without a health upstream starts with `limit` permits, then after any events the
  -- number of active connections that the log and the metrics compute from the free permits is the
  -- number of held connections, which is at most `limit`.
  pub listen-active :
      (limit : ℕ) (s : Semaphore) (es : List Event)
      → available_permits s ≡ limit
      → let l = listen lib false (start lib s) es in
        (active limit (available_permits l.semaphore) ≡ length l.held) × (length l.held ≤ limit)
  unfolding start
  listen-active limit s es full =
      let (_, balanced) = listen-refines limit (start lib s) es (omega arith) in
      (omega arith, omega arith)
