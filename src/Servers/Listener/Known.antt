-- ===== src/Servers/Listener/Known.antt =====
-- servers/protocol/tcp.rs, `proxy`: the connections that a step makes known, or forgets.
use tls_proxy_tunnel.Base.{
  ℕ, ◌≡◌, refl, inl, inr, Bool, true, false, ◌||◌, some, List, [], ◌∷◌, arith, ◌==◌, Option-cases,
  is_in,
}
use tls_proxy_tunnel.Net.{would_block, other}
use tls_proxy_tunnel.Servers.Semaphores.{SemaphoreLib}
use tls_proxy_tunnel.Servers.Listener.{
  Status, listening, stopped, broken, Event, accepted, accept_failed, cancelled, ended, remove_id,
  Listener, hold_or_reject, on_accepted, on_failed, loop_step, drop_unlimited, on_ended,
}

-- The loop stops at the token, and at an error that is not `WouldBlock`.
abbrev pub next_status : Status → Event → Status
next_status listening (accepted id) = listening
next_status listening (accept_failed would_block) = listening
next_status listening (accept_failed (other text)) = broken (other text)
next_status listening cancelled = stopped
next_status listening (ended id) = listening
next_status stopped e = stopped
next_status (broken x) e = broken x

abbrev pub arrives_now : ℕ → Status → Event → Bool
arrives_now id listening (accepted j) = j == id
arrives_now id listening (accept_failed x) = false
arrives_now id listening cancelled = false
arrives_now id listening (ended j) = false
arrives_now id stopped e = false
arrives_now id (broken x) e = false

-- The connection comes while the loop runs.
abbrev pub arrives : ℕ → Status → List Event → Bool
arrives id st [] = false
arrives id st (e ∷ es) = arrives_now id st e || arrives id (next_status st e) es

-- Its task ends.
abbrev pub ends_now : ℕ → Event → Bool
ends_now id (ended j) = j == id
ends_now id (accepted j) = false
ends_now id (accept_failed x) = false
ends_now id cancelled = false

abbrev pub ends : ℕ → List Event → Bool
ends id [] = false
ends id (e ∷ es) = ends_now id e || ends id es

remove_id-is_in_other :
    (id j : ℕ) (xs ys : List ℕ)
    → remove_id j xs ≡ some ys
    → (j == id) ≡ false
    → is_in id ys ≡ is_in id xs
unfolding remove_id
remove_id-is_in_other id j [] ys h n = absurd (cc)
remove_id-is_in_other id j (x ∷ xs) ys h n = elim (Option-cases (remove_id j xs)) [
  | inl e ↦ ground arith
  | inr (zs, e) ↦ ground (arith, remove_id-is_in_other id j xs zs e n)
]

remove_id-is_in_less :
    (id j : ℕ) (xs ys : List ℕ) → remove_id j xs ≡ some ys → is_in id ys ≡ true → is_in id xs ≡ true
unfolding remove_id
remove_id-is_in_less id j [] ys h n = absurd (cc)
remove_id-is_in_less id j (x ∷ xs) ys h n = elim (Option-cases (remove_id j xs)) [
  | inl e ↦ ground arith
  | inr (zs, e) ↦ ground (arith, remove_id-is_in_less id j xs zs e)
]

module _ (lib : SemaphoreLib) where
  -- The connection is running, with a permit or without, or was rejected.
  abbrev pub is_known : ℕ → Listener lib → Bool
  is_known id l = is_in id l.held || (is_in id l.unlimited || is_in id l.rejected)

  on_accepted-is_known :
      (h : Bool) (id j : ℕ) (l : Listener lib)
      → is_known id (on_accepted lib h j l) ≡ (j == id || is_known id l)
  unfolding on_accepted hold_or_reject
  on_accepted-is_known true id j l = ground arith
  on_accepted-is_known false id j l = elim (Option-cases (lib.try_acquire l.semaphore)) [
    | inl e ↦ rw (e, hold_or_reject) (ground arith)
    | inr (s, e) ↦ rw (e, hold_or_reject) (ground arith)
  ]

  pub loop_step-is_known :
      (h : Bool) (st : Status) (id : ℕ) (e : Event) (l : Listener lib)
      → is_known id (loop_step lib h st e l) ≡ (arrives_now id st e || is_known id l)
  unfolding loop_step on_failed
  loop_step-is_known h listening id (accepted j) l = on_accepted-is_known h id j l
  loop_step-is_known h listening id (accept_failed would_block) l = refl
  loop_step-is_known h listening id (accept_failed (other text)) l = refl
  loop_step-is_known h listening id cancelled l = refl
  loop_step-is_known h listening id (ended j) l = refl
  loop_step-is_known h stopped id e l = refl
  loop_step-is_known h (broken x) id e l = refl

  pub on_ended-is_known_other :
      (id j : ℕ) (l : Listener lib)
      → (j == id) ≡ false
      → is_known id (on_ended lib j l) ≡ is_known id l
  unfolding on_ended drop_unlimited
  on_ended-is_known_other id j l n = elim (Option-cases (remove_id j l.held)) [
    | inr (rest, e) ↦ rw (e, on_ended) (rw (remove_id-is_in_other id j l.held rest e n) refl)
    | inl e ↦ elim (Option-cases (remove_id j l.unlimited)) [
      | inr (rest, e') ↦
          rw (e, on_ended, e', drop_unlimited)
            (rw (remove_id-is_in_other id j l.unlimited rest e' n) refl)
      | inl e' ↦ rw (e, on_ended, e', drop_unlimited) refl
    ]
  ]

  pub on_ended-is_known_less :
      (id j : ℕ) (l : Listener lib) → is_known id (on_ended lib j l) ≡ true → is_known id l ≡ true
  unfolding on_ended drop_unlimited
  on_ended-is_known_less id j l k = elim (Option-cases (remove_id j l.held)) [
    | inr (rest, e) ↦ ground (arith, remove_id-is_in_less id j l.held rest e, rw (e, on_ended) at k)
    | inl e ↦ elim (Option-cases (remove_id j l.unlimited)) [
      | inr (rest, e') ↦ ground (
        arith,
        remove_id-is_in_less id j l.unlimited rest e',
        rw (e, on_ended, e', drop_unlimited) at k,
      )
      | inl e' ↦ rw (e, on_ended, e', drop_unlimited) at k
    ]
  ]
