-- ===== src/Address/History.antt =====
-- servers/upstream_address/mod.rs, `resolve`: sequences of calls on one upstream, all in one
-- mode, as its connections make them.
use mathlib.Core.List.{Memᴰ}
use tls_proxy_tunnel.Base.{
  ℕ, ◌≡◌, refl, List, [], ◌∷◌, arith, All, ◌⊎◌, inl, inr, true, Bool, Bool-cases, String, ◌&&◌,
}
use tls_proxy_tunnel.Net.{SocketAddr, is_ipv4, is_ipv6, IoResult, io_ok, io_err}
use tls_proxy_tunnel.Address.{
  ResolutionMode, ipv4, ipv6, ipv4_and_ipv6, UpstreamAddress, select_family, filter_addresses,
  store, resolve, new, is_resolved, is_valid,
}

-- One call: its time, the time of the resolver's answer, and the answer.
pub record Call : Type 0 where
  pub now : ℕ
  pub later : ℕ
  pub answer : IoResult (List SocketAddr)

abbrev pub call_on :
    UpstreamAddress → ResolutionMode → Call → UpstreamAddress × IoResult (List SocketAddr)
call_on a mode c = resolve a mode c.now c.later c.answer

-- The cache after the calls, the latest first.
unfoldable pub after : String → ResolutionMode → List Call → UpstreamAddress
after name mode [] = new name
after name mode (c ∷ earlier) = (call_on (after name mode earlier) mode c).0

-- The addresses are the family's share of one successful answer among the calls.
pub record Origin (mode : ResolutionMode) (calls : List Call) (xs : List SocketAddr) : Type 0 where
  pub call : Call
  pub listed : Memᴰ call calls
  pub found : List SocketAddr
  pub answered : call.answer ≡ io_ok found
  pub selected : xs ≡ select_family mode found

Origin-cons :
    {mode : ResolutionMode} {calls : List Call} {xs : List SocketAddr} (c : Call)
    → Origin mode calls xs
    → Origin mode (c ∷ calls) xs
Origin-cons c o = record {
  call = o.call;
  listed = Memᴰ.tail o.listed;
  found = o.found;
  answered = o.answered;
  selected = o.selected;
}

-- The cache is empty, or holds such a share.
abbrev IsCached : ResolutionMode → List Call → UpstreamAddress → Type 0
IsCached mode calls a = (a.resolved_addresses ≡ []) ⊎ Origin mode calls a.resolved_addresses

store-IsCached :
    (mode : ResolutionMode) (calls : List Call) (a : UpstreamAddress) (c : Call)
    (answer : IoResult (List SocketAddr))
    → c.answer ≡ answer
    → IsCached mode calls a
    → IsCached mode (c ∷ calls) (store mode c.later a answer).0
unfolding store
store-IsCached mode calls a c (io_ok found) e h =
    inr (record { call = c; listed = Memᴰ.head refl; found = found; answered = e; selected = refl })
store-IsCached mode calls a c (io_err x) e (inl none_yet) = inl none_yet
store-IsCached mode calls a c (io_err x) e (inr o) = inr (Origin-cons c o)

weaken-IsCached :
    (mode : ResolutionMode) (calls : List Call) (a : UpstreamAddress) (c : Call)
    → IsCached mode calls a
    → IsCached mode (c ∷ calls) a
weaken-IsCached mode calls a c (inl e) = inl e
weaken-IsCached mode calls a c (inr o) = inr (Origin-cons c o)

call_on-IsCached :
    (mode : ResolutionMode) (calls : List Call) (a : UpstreamAddress) (c : Call)
    → IsCached mode calls a
    → IsCached mode (c ∷ calls) (call_on a mode c).0
unfolding resolve
call_on-IsCached mode calls a c h = elim (Bool-cases (is_resolved a && is_valid a c.now)) [
  | inl hit ↦ rw (resolve, hit) (weaken-IsCached mode calls a c h)
  | inr miss ↦ rw (resolve, miss) (store-IsCached mode calls a c c.answer refl h)
]

after-IsCached :
    (name : String) (mode : ResolutionMode) (calls : List Call)
    → IsCached mode calls (after name mode calls)
unfolding after new
after-IsCached name mode [] = inl refl
after-IsCached name mode (c ∷ calls) =
    call_on-IsCached mode calls (after name mode calls) c (after-IsCached name mode calls)

store-Origin :
    (mode : ResolutionMode) (calls : List Call) (a : UpstreamAddress) (c : Call)
    (answer : IoResult (List SocketAddr)) (xs : List SocketAddr)
    → c.answer ≡ answer
    → (store mode c.later a answer).1 ≡ io_ok xs
    → Origin mode (c ∷ calls) xs
unfolding store
store-Origin mode calls a c (io_ok found) xs e h = record {
  call = c;
  listed = Memᴰ.head refl;
  found = found;
  answered = e;
  selected = ground arith;
}
store-Origin mode calls a c (io_err x) xs e h = cc

hit-Origin :
    (mode : ResolutionMode) (calls : List Call) (a : UpstreamAddress) (c : Call)
    (xs : List SocketAddr)
    → is_resolved a ≡ true
    → a.resolved_addresses ≡ xs
    → IsCached mode calls a
    → Origin mode (c ∷ calls) xs
unfolding is_resolved
hit-Origin mode calls a c xs r e (inl e') = ground arith
hit-Origin mode calls a c xs r e (inr o) = record {
  call = o.call;
  listed = Memᴰ.tail o.listed;
  found = o.found;
  answered = o.answered;
  selected = cc (o.selected);
}

call_on-Origin :
    (mode : ResolutionMode) (calls : List Call) (a : UpstreamAddress) (c : Call)
    (xs : List SocketAddr)
    → IsCached mode calls a
    → (call_on a mode c).1 ≡ io_ok xs
    → Origin mode (c ∷ calls) xs
unfolding resolve
call_on-Origin mode calls a c xs h r = elim (Bool-cases (is_resolved a && is_valid a c.now)) [
  | inl hit ↦ hit-Origin mode calls a c xs (ground arith) (ground arith) h
  | inr miss ↦ store-Origin mode calls a c c.answer xs refl (ground arith)
]

-- After any calls on a new cache in one mode, the addresses that a further call returns without an
-- error are the mode's share of one successful answer of the resolver, of that call or of an
-- earlier one.
pub resolve-after-Origin :
    (name : String) (mode : ResolutionMode) (earlier : List Call) (c : Call) (xs : List SocketAddr)
    → (call_on (after name mode earlier) mode c).1 ≡ io_ok xs
    → Origin mode (c ∷ earlier) xs
resolve-after-Origin name mode earlier c xs =
    call_on-Origin mode earlier (after name mode earlier) c xs (after-IsCached name mode earlier)

-- The addresses that a mode admits.
abbrev pub IsOfMode : ResolutionMode → SocketAddr → Type 0
IsOfMode ipv4 x = is_ipv4 x ≡ true
IsOfMode ipv6 x = is_ipv6 x ≡ true
IsOfMode ipv4_and_ipv6 x = Unit

filter_addresses-All :
    (keep : SocketAddr → Bool) (xs : List SocketAddr)
    → All (λ x. keep x ≡ true) (filter_addresses keep xs)
unfolding filter_addresses
filter_addresses-All keep [] = tt
filter_addresses-All keep (x ∷ xs) = elim (Bool-cases (keep x)) [
  | inl e ↦ rw (e, filter_addresses) (e, filter_addresses-All keep xs)
  | inr e ↦ rw (e, filter_addresses) (filter_addresses-All keep xs)
]

All-any : (xs : List SocketAddr) → All (λ x. Unit {0}) xs
All-any [] = tt
All-any (x ∷ xs) = (tt, All-any xs)

select_family-IsOfMode :
    (mode : ResolutionMode) (xs : List SocketAddr) → All (IsOfMode mode) (select_family mode xs)
unfolding select_family
select_family-IsOfMode ipv4 xs = filter_addresses-All is_ipv4 xs
select_family-IsOfMode ipv6 xs = filter_addresses-All is_ipv6 xs
select_family-IsOfMode ipv4_and_ipv6 xs = All-any xs

-- After any calls on a new cache in one mode, the addresses that a further call returns without an
-- error are of the mode's family.
pub resolve-after-IsOfMode :
    (name : String) (mode : ResolutionMode) (earlier : List Call) (c : Call) (xs : List SocketAddr)
    → (call_on (after name mode earlier) mode c).1 ≡ io_ok xs
    → All (IsOfMode mode) xs
resolve-after-IsOfMode name mode earlier c xs h =
    let o = resolve-after-Origin name mode earlier c xs h in
    rw o.selected (select_family-IsOfMode mode o.found)
