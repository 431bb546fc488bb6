-- ===== src/Servers/Listener/Health.antt =====
-- servers/protocol/tcp.rs, `proxy`, for a server whose default upstream is a health upstream.
use tls_proxy_tunnel.Base.{◌≡◌, refl, ◌∙◌, true, List, [], ◌∷◌, arith}
use tls_proxy_tunnel.Net.{would_block, other}
use tls_proxy_tunnel.Servers.Semaphores.{SemaphoreLib}
use tls_proxy_tunnel.Servers.Listener.{
  Event, accepted, accept_failed, cancelled, ended, remove_id, Listener, on_accepted, on_failed,
  loop_step, drop_unlimited, on_ended, listen_step, listen,
}

module _ (lib : SemaphoreLib) where
  -- Nothing is held, nothing rejected, and the semaphore is as it was.
  pub record IsUnlimited (l l' : Listener lib) : Type 0 where
    pub semaphore : l'.semaphore ≡ l.semaphore
    pub held : l'.held ≡ []
    pub rejected : l'.rejected ≡ l.rejected

  step-IsUnlimited :
      (l : Listener lib) (e : Event) → l.held ≡ [] → IsUnlimited l (listen_step lib true l e)
  unfolding listen_step loop_step on_accepted on_failed on_ended drop_unlimited remove_id
  step-IsUnlimited l (accepted id) h = record {
    semaphore = ground arith;
    held = ground arith;
    rejected = ground arith;
  }
  step-IsUnlimited l (accept_failed would_block) h = record {
    semaphore = ground arith;
    held = ground arith;
    rejected = ground arith;
  }
  step-IsUnlimited l (accept_failed (other text)) h = record {
    semaphore = ground arith;
    held = ground arith;
    rejected = ground arith;
  }
  step-IsUnlimited l cancelled h = record {
    semaphore = ground arith;
    held = ground arith;
    rejected = ground arith;
  }
  step-IsUnlimited l (ended id) h = record {
    semaphore = ground arith;
    held = ground arith;
    rejected = ground arith;
  }

  -- A listener of a health server that holds no permit never takes one and never rejects a
  -- connection, whatever its limit and the events are.
  pub listen-IsUnlimited :
      (l : Listener lib) (es : List Event) → l.held ≡ [] → IsUnlimited l (listen lib true l es)
  unfolding listen
  listen-IsUnlimited l [] h = record { semaphore = refl; held = h; rejected = refl }
  listen-IsUnlimited l (e ∷ es) h =
      let one = step-IsUnlimited l e h in
      let rest = listen-IsUnlimited (listen_step lib true l e) es one.held in
      record {
        semaphore = rest.semaphore ∙ one.semaphore;
        held = rest.held;
        rejected = rest.rejected ∙ one.rejected;
      }
