-- ===== src/Address/Recent.antt =====
-- servers/upstream_address/mod.rs, `resolve`: how old what the cache serves can be.
use mathlib.Core.List.{Memᴰ}
use tls_proxy_tunnel.Base.{
  ℕ, ◌-◌, ◌<◌, ◌≡◌, refl, true, none, some, List, [], ◌∷◌, String, arith, ◌⊎◌, inl, inr, ◌&&◌,
  Bool-cases,
}
use tls_proxy_tunnel.Net.{SocketAddr, IoResult, io_ok, io_err, seconds, minutes}
use tls_proxy_tunnel.Address.{
  ResolutionMode, UpstreamAddress, new, valid_at, is_valid, is_resolved, select_family, store,
  resolve,
}
use tls_proxy_tunnel.Address.History.{Call, call_on, after, Origin, resolve-after-Origin}

-- How long a lookup counts.
abbrev pub ttl_of : IoResult (List SocketAddr) → ℕ
ttl_of (io_ok found) = minutes 1
ttl_of (io_err e) = seconds 3

-- The lookup that the cache's times are from.
record IsStamp (calls : List Call) (a : UpstreamAddress) : Type 0 where
  call : Call
  listed : Memᴰ call calls
  time : a.resolved_time ≡ some call.later
  ttl : a.ttl ≡ some (ttl_of call.answer)

abbrev IsStamped : List Call → UpstreamAddress → Type 0
IsStamped calls a = (a.resolved_time ≡ none) ⊎ IsStamp calls a

store-IsStamp :
    (mode : ResolutionMode) (calls : List Call) (a : UpstreamAddress) (c : Call)
    (answer : IoResult (List SocketAddr))
    → c.answer ≡ answer
    → IsStamp (c ∷ calls) (store mode c.later a answer).0
unfolding store
store-IsStamp mode calls a c (io_ok found) e = record {
  call = c;
  listed = Memᴰ.head refl;
  time = refl;
  ttl = rw e refl;
}
store-IsStamp mode calls a c (io_err x) e = record {
  call = c;
  listed = Memᴰ.head refl;
  time = refl;
  ttl = rw e refl;
}

IsStamped-cons :
    (calls : List Call) (a : UpstreamAddress) (c : Call)
    → IsStamped calls a
    → IsStamped (c ∷ calls) a
IsStamped-cons calls a c (inl e) = inl e
IsStamped-cons calls a c (inr s) =
    inr (record { call = s.call; listed = Memᴰ.tail s.listed; time = s.time; ttl = s.ttl })

call_on-IsStamped :
    (mode : ResolutionMode) (calls : List Call) (a : UpstreamAddress) (c : Call)
    → IsStamped calls a
    → IsStamped (c ∷ calls) (call_on a mode c).0
unfolding resolve
call_on-IsStamped mode calls a c s = elim (Bool-cases (is_resolved a && is_valid a c.now)) [
  | inl hit ↦ rw (resolve, hit) (IsStamped-cons calls a c s)
  | inr miss ↦ rw (resolve, miss) (inr (store-IsStamp mode calls a c c.answer refl))
]

after-IsStamped :
    (name : String) (mode : ResolutionMode) (calls : List Call)
    → IsStamped calls (after name mode calls)
unfolding after new
after-IsStamped name mode [] = inl refl
after-IsStamped name mode (c ∷ calls) =
    call_on-IsStamped mode calls (after name mode calls) c (after-IsStamped name mode calls)

-- Some lookup before counts still.
pub record IsRecent (earlier : List Call) (now : ℕ) : Type 0 where
  pub lookup : Call
  pub listed : Memᴰ lookup earlier
  pub counts : now - lookup.later < ttl_of lookup.answer

valid-IsRecent :
    (calls : List Call) (a : UpstreamAddress) (now : ℕ)
    → is_valid a now ≡ true
    → IsStamped calls a
    → IsRecent calls now
unfolding is_valid valid_at
valid-IsRecent calls a now v (inl e) =
    let v' : valid_at now none a.ttl ≡ true = ground arith in absurd (cc)
valid-IsRecent calls a now v (inr s) = record {
  lookup = s.call;
  listed = s.listed;
  counts = ground arith;
}

-- Where the addresses of a call come from, and how recent a lookup is behind them.
pub record IsServed (mode : ResolutionMode) (earlier : List Call) (c : Call) (xs : List SocketAddr)
    : Type 0 where
  pub origin : Origin mode (c ∷ earlier) xs
  pub recent :
      ((found : List SocketAddr) × (c.answer ≡ io_ok found) × (xs ≡ select_family mode found))
      ⊎ IsRecent earlier c.now

store-own :
    (mode : ResolutionMode) (a : UpstreamAddress) (later : ℕ) (answer : IoResult (List SocketAddr))
    (xs : List SocketAddr)
    → (store mode later a answer).1 ≡ io_ok xs
    → (found : List SocketAddr) × (answer ≡ io_ok found) × (xs ≡ select_family mode found)
unfolding store
store-own mode a later (io_ok found) xs h = (found, refl, ground arith)
store-own mode a later (io_err e) xs h = absurd (cc)

-- After any calls on a new cache in one mode, the addresses that a further call returns without an
-- error are the mode's share of one successful answer of the resolver, of that call or of an
-- earlier one; and they are this share of the call's own answer, or some earlier lookup ended less
-- than a minute before the call if it succeeded, and less than three seconds before it if it
-- failed.
pub resolve-after-IsServed :
    (name : String) (mode : ResolutionMode) (earlier : List Call) (c : Call) (xs : List SocketAddr)
    → (call_on (after name mode earlier) mode c).1 ≡ io_ok xs
    → IsServed mode earlier c xs
unfolding resolve
resolve-after-IsServed name mode earlier c xs h =
    let a = after name mode earlier in
    record {
      origin = resolve-after-Origin name mode earlier c xs h;
      recent = elim (Bool-cases (is_resolved a && is_valid a c.now)) [
        | inl hit ↦
            inr (valid-IsRecent earlier a c.now (ground arith) (after-IsStamped name mode earlier))
        | inr miss ↦ inl (store-own mode a c.later c.answer xs (rw (resolve, miss) at h))
      ];
    }
