-- ===== src/Address/Tasks/Interleaved.antt =====
-- servers/upstream_address/mod.rs, `resolve`: calls that share one cache, in any order of their
-- steps.
use mathlib.Core.List.{Memᴰ}
use tls_proxy_tunnel.Base.{
  ℕ, zero, suc, ◌≡◌, refl, inl, List, [], ◌∷◌, String, All, All-weaken, replicate,
}
use tls_proxy_tunnel.Net.{SocketAddr, io_ok, io_err}
use tls_proxy_tunnel.Address.{ResolutionMode, UpstreamAddress, new, select_family}
use tls_proxy_tunnel.Address.Tasks.{
  Task, checking, timing, expiring, serving, looking, failing, failing_ttl, storing, stamping,
  limiting, finished, Shared, Turn, interleave,
}
use tls_proxy_tunnel.Address.Tasks.Sound.{IsSound, IsGood, interleave-IsSound}

-- The lists are the mode's share of some answer that the resolver gave.
abbrev pub IsShareOf : ResolutionMode → List Turn → List SocketAddr → Type 0
IsShareOf mode ts xs =
    (t : Turn) × (found : List SocketAddr) × Memᴰ t ts
    × (t.answer ≡ io_ok found)
    × (xs ≡ select_family mode found)

-- The results of the calls that have returned addresses.
abbrev pub IsResult : ResolutionMode → List Turn → Task → Type 0
IsResult mode ts (finished (io_ok xs)) = IsShareOf mode ts xs
IsResult mode ts _ = Unit

answers-IsGood :
    (mode : ResolutionMode) (ts us : List Turn)
    → ((t : Turn) → Memᴰ t us → Memᴰ t ts)
    → All (λ t. IsGood mode (IsShareOf mode ts) t.answer) us
answers-IsGood mode ts [] among = tt
answers-IsGood mode ts (u ∷ us) among = (
  λ found e. (u, found, among u (Memᴰ.head refl), e, refl),
  answers-IsGood mode ts us (λ t m. among t (Memᴰ.tail m)),
)

checking-All :
    (mode : ResolutionMode) (P : List SocketAddr → Type 0) (a : UpstreamAddress) (calls : ℕ)
    → All (IsSound mode P a) (replicate calls checking)
checking-All mode P a zero = tt
checking-All mode P a (suc calls) = (tt, checking-All mode P a calls)

IsSound-IsResult :
    (mode : ResolutionMode) (ts : List Turn) (a : UpstreamAddress) (t : Task)
    → IsSound mode (IsShareOf mode ts) a t
    → IsResult mode ts t
IsSound-IsResult mode ts a checking s = tt
IsSound-IsResult mode ts a timing s = tt
IsSound-IsResult mode ts a (expiring r) s = tt
IsSound-IsResult mode ts a serving s = tt
IsSound-IsResult mode ts a looking s = tt
IsSound-IsResult mode ts a (failing e) s = tt
IsSound-IsResult mode ts a (failing_ttl e) s = tt
IsSound-IsResult mode ts a (storing xs) s = tt
IsSound-IsResult mode ts a (stamping xs) s = tt
IsSound-IsResult mode ts a (limiting xs) s = tt
IsSound-IsResult mode ts a (finished (io_ok xs)) s = s
IsSound-IsResult mode ts a (finished (io_err e)) s = tt

-- When any number of calls of `resolve` share a new cache in one mode and go on lock by lock in any
-- order, every list of addresses that one of them has returned is the mode's share of one
-- successful answer that the resolver gave in some turn.
pub interleave-IsResult :
    (mode : ResolutionMode) (name : String) (calls : ℕ) (ts : List Turn)
    → All
        (IsResult mode ts)
        (interleave mode (record { cache = new name; tasks = replicate calls checking }) ts).tasks
unfolding new
interleave-IsResult mode name calls ts =
    let s : Shared = record { cache = new name; tasks = replicate calls checking } in
    let P = IsShareOf mode ts in
    let sound =
      interleave-IsSound mode P s ts (answers-IsGood mode ts ts (λ t m. m)) (inl refl)
        (checking-All mode P (new name) calls) in
    All-weaken (IsSound mode P (interleave mode s ts).cache) (IsResult mode ts)
      (IsSound-IsResult mode ts (interleave mode s ts).cache) (interleave mode s ts).tasks sound
