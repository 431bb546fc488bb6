-- ===== src/Upstreams/Http/Writing.antt =====
-- upstreams/proxy_to_upstream/http.rs, the write loop of `http_connect`.
use tls_proxy_tunnel.Base.{
  ℕ, ◌+◌, ◌≡◌, ◌≢◌, refl, inl, inr, false, List, [], ◌∷◌, arith, leb, ◌==◌, length, take, take_all,
  Bool-cases, All,
}
use tls_proxy_tunnel.Utf8.{Bytes}
use tls_proxy_tunnel.Upstreams.Http.{
  WriteEvent, wrote, write_blocked, write_failed, not_writable, done, write_loop,
}

abbrev IsBeginning : Bytes → Bytes → Type 0
IsBeginning bytes sent = (k : ℕ) × (sent ≡ take k bytes)

-- One round, by its event.
write_round-take :
    (bytes : Bytes) (written : ℕ) (e : WriteEvent) (es : List WriteEvent)
    → ((k : ℕ) → IsBeginning bytes (write_loop bytes k es).0)
    → leb (length bytes) written ≡ false
    → IsBeginning bytes (write_loop bytes written (e ∷ es)).0
unfolding write_loop
write_round-take bytes written (wrote n) es ih h = elim (Bool-cases (n == 0)) [
  | inl zero_sent ↦ (written, ground arith)
  | inr some_sent ↦ let (k, e) = ih (written + n) in (k, ground arith)
]
write_round-take bytes written write_blocked es ih h = let (k, e) = ih written in (k, ground arith)
write_round-take bytes written (write_failed x) es ih h = (written, ground arith)
write_round-take bytes written (not_writable x) es ih h = (written, ground arith)

-- The bytes that the socket took are always a beginning of the request.
pub write_loop-take :
    (bytes : Bytes) (written : ℕ) (es : List WriteEvent)
    → (k : ℕ) × ((write_loop bytes written es).0 ≡ take k bytes)
unfolding write_loop
write_loop-take bytes written [] = (written, refl)
write_loop-take bytes written (e ∷ es) = elim (Bool-cases (leb (length bytes) written)) [
  | inl full ↦ (written, rw (full, write_loop) refl)
  | inr unfinished ↦
      write_round-take bytes written e es (λ k. write_loop-take bytes k es) unfinished
]

-- If `try_write` never answers 0, a finished loop has sent the whole request.
pub write_loop_complete :
    (bytes : Bytes) (written : ℕ) (es : List WriteEvent)
    → All (λ e. e ≢ wrote 0) es
    → (write_loop bytes written es).1 ≡ done tt
    → (write_loop bytes written es).0 ≡ bytes
unfolding write_loop
write_loop_complete bytes written [] nz h = ground (arith, take_all written bytes)
write_loop_complete bytes written (wrote n ∷ es) nz h =
    ground (arith, take_all written bytes, write_loop_complete bytes (written + n) es nz.1)
write_loop_complete bytes written (write_blocked ∷ es) nz h =
    ground (arith, take_all written bytes, write_loop_complete bytes written es nz.1)
write_loop_complete bytes written (write_failed x ∷ es) nz h =
    ground (arith, take_all written bytes)
write_loop_complete bytes written (not_writable x ∷ es) nz h =
    ground (arith, take_all written bytes)
