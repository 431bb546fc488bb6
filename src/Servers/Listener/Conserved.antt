-- ===== src/Servers/Listener/Conserved.antt =====
-- servers/protocol/tcp.rs, `proxy`: what becomes of the connections that arrive.
use tls_proxy_tunnel.Base.{
  ℕ, ◌≡◌, refl, sym, ap, ◌∙◌, ◌⊎◌, inl, inr, Bool, true, false, ◌||◌, List, [], ◌∷◌, arith, ◌==◌,
  Bool-cases,
}
use tls_proxy_tunnel.Net.{would_block, other}
use tls_proxy_tunnel.Servers.Semaphores.{SemaphoreLib}
use tls_proxy_tunnel.Servers.Listener.{
  start, Status, listening, stopped, broken, Event, accepted, accept_failed, cancelled, ended,
  Listener, hold_or_reject, on_accepted, on_failed, loop_step, drop_unlimited, on_ended,
  listen_step, listen,
}
use tls_proxy_tunnel.Servers.Listener.Known.{
  next_status, arrives_now, arrives, ends_now, ends, is_known, loop_step-is_known,
  on_ended-is_known_other, on_ended-is_known_less,
}

-- Two steps: `k`, `l` and `m` say what is known before, between and after them.
known_after :
    (a b k l m c d : Bool)
    → (l ≡ true → (a || k) ≡ true)
    → (m ≡ true → (b || l) ≡ true)
    → m ≡ true
    → ((a || b) || k) ≡ true
known_after a b k l m c d one two h = ground (arith, one, two h)

known_before :
    (a b k l m c d : Bool)
    → ((a || k) ≡ true → (l || c) ≡ true)
    → ((b || l) ≡ true → (m || d) ≡ true)
    → ((a || b) || k) ≡ true
    → (m || (c || d)) ≡ true
known_before a b k l m c d one two h = ground (arith, one, two)

module _ (lib : SemaphoreLib) where
  on_accepted-status :
      (h : Bool) (j : ℕ) (l : Listener lib) → (on_accepted lib h j l).status ≡ l.status
  unfolding on_accepted hold_or_reject
  on_accepted-status true j l = refl
  on_accepted-status false j l = ground arith

  on_ended-status : (j : ℕ) (l : Listener lib) → (on_ended lib j l).status ≡ l.status
  unfolding on_ended drop_unlimited
  on_ended-status j l = ground arith

  loop_step-status :
      (h : Bool) (st : Status) (e : Event) (l : Listener lib)
      → l.status ≡ st
      → (loop_step lib h st e l).status ≡ next_status st e
  unfolding loop_step on_failed
  loop_step-status h listening (accepted j) l s = on_accepted-status h j l ∙ s
  loop_step-status h listening (accept_failed would_block) l s = s
  loop_step-status h listening (accept_failed (other text)) l s = refl
  loop_step-status h listening cancelled l s = refl
  loop_step-status h listening (ended j) l s = s
  loop_step-status h stopped e l s = s
  loop_step-status h (broken x) e l s = s

  -- The end of a task is nothing to the loop.
  next_status-ended : (st : Status) (j : ℕ) → next_status st (ended j) ≡ st
  next_status-ended listening j = refl
  next_status-ended stopped j = refl
  next_status-ended (broken x) j = refl

  arrives_now-ended : (id : ℕ) (st : Status) (j : ℕ) → arrives_now id st (ended j) ≡ false
  arrives_now-ended id listening j = refl
  arrives_now-ended id stopped j = refl
  arrives_now-ended id (broken x) j = refl

  listen_step-status :
      (h : Bool) (l : Listener lib) (e : Event)
      → (listen_step lib h l e).status ≡ next_status l.status e
  unfolding listen_step
  listen_step-status h l (accepted j) = loop_step-status h l.status (accepted j) l refl
  listen_step-status h l (accept_failed x) = loop_step-status h l.status (accept_failed x) l refl
  listen_step-status h l cancelled = loop_step-status h l.status cancelled l refl
  listen_step-status h l (ended j) = on_ended-status j l ∙ sym (next_status-ended l.status j)

  -- Of a step, or of a run: it makes known what arrives, and forgets only what ends.
  abbrev Keeps : ℕ → Listener lib → Listener lib → (arrived ended_then : Bool) → Type 0
  Keeps id l l' arrived ended_then =
      (is_known lib id l' ≡ true → (arrived || is_known lib id l) ≡ true)
      × ((arrived || is_known lib id l) ≡ true → (is_known lib id l' || ended_then) ≡ true)

  Keeps-of :
      (id : ℕ) (l l' : Listener lib) (arrived : Bool)
      → is_known lib id l' ≡ (arrived || is_known lib id l)
      → Keeps id l l' arrived false
  Keeps-of id l l' arrived e = (λ k. sym e ∙ k, λ k. rw (e, k) refl)

  on_ended-Keeps : (id j : ℕ) (l : Listener lib) → Keeps id l (on_ended lib j l) false (j == id)
  on_ended-Keeps id j l = (
    λ k. on_ended-is_known_less lib id j l k,
    λ k. elim (Bool-cases (j == id)) [
      | inl it ↦ ground arith
      | inr another ↦ rw (on_ended-is_known_other lib id j l another, k) refl
    ],
  )

  listen_step-Keeps :
      (h : Bool) (id : ℕ) (l : Listener lib) (e : Event)
      → Keeps id l (listen_step lib h l e) (arrives_now id l.status e) (ends_now id e)
  unfolding listen_step
  listen_step-Keeps h id l (accepted j) =
      Keeps-of id l (loop_step lib h l.status (accepted j) l) _
        (loop_step-is_known lib h l.status id (accepted j) l)
  listen_step-Keeps h id l (accept_failed x) =
      Keeps-of id l (loop_step lib h l.status (accept_failed x) l) _
        (loop_step-is_known lib h l.status id (accept_failed x) l)
  listen_step-Keeps h id l cancelled =
      Keeps-of id l (loop_step lib h l.status cancelled l) _
        (loop_step-is_known lib h l.status id cancelled l)
  listen_step-Keeps h id l (ended j) = rw (arrives_now-ended id l.status j) (on_ended-Keeps id j l)

  listen-Keeps :
      (h : Bool) (id : ℕ) (l : Listener lib) (es : List Event)
      → Keeps id l (listen lib h l es) (arrives id l.status es) (ends id es)
  unfolding listen
  listen-Keeps h id l [] = (λ k. k, λ k. rw k refl)
  listen-Keeps h id l (e ∷ es) =
      let one = listen_step-Keeps h id l e in
      let rest = listen-Keeps h id (listen_step lib h l e) es in
      let s' = ap (λ st. arrives id st es) (listen_step-status h l e) in
      let l' = listen_step lib h l e in
      let m = listen lib h l' es in
      let now = arrives_now id l.status e in
      let later = arrives id (next_status l.status e) es in
      (
        λ k.
            known_after now later (is_known lib id l) (is_known lib id l') (is_known lib id m)
              (ends_now id e) (ends id es) one.0
              (λ x. sym (ap (λ b. b || is_known lib id l') s') ∙ rest.0 x) k,
        λ k.
            known_before now later (is_known lib id l) (is_known lib id l') (is_known lib id m)
              (ends_now id e) (ends id es) one.1
              (λ x. rest.1 (ap (λ b. b || is_known lib id l') s' ∙ x)) k,
      )

  -- After any events from the start of a listener, for each connection: either it did not arrive
  -- while the loop ran, and it is neither running nor rejected; or it did, and it is running, was
  -- rejected, or its task has ended.
  pub listen_conserves :
      (h : Bool) (s : lib.Semaphore) (es : List Event) (id : ℕ)
      → let l = listen lib h (start lib s) es in
        ((arrives id listening es ≡ false) × (is_known lib id l ≡ false))
        ⊎ ((arrives id listening es ≡ true) × ((is_known lib id l || ends id es) ≡ true))
  unfolding start
  listen_conserves h s es id =
      let k = listen-Keeps h id (start lib s) es in
      elim (Bool-cases (arrives id listening es)) [
        | inl here ↦ inr (here, k.1 (rw here refl))
        | inr absent ↦ elim (Bool-cases (is_known lib id (listen lib h (start lib s) es))) [
          | inl bad ↦ absurd (let x = k.0 bad in ground arith)
          | inr unknown ↦ inl (absent, unknown)
        ]
      ]
