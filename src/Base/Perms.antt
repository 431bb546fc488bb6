-- ===== src/Base/Perms.antt =====
-- Lists in another order: what stands in them, and what a `HashMap` that is walked in another order
-- holds.
use mathlib.Core.Path.{◌≡◌, refl, ap, ◌∙◌, subst}
use mathlib.Core.List.{List, [], ◌∷◌, ◌++◌, append_assoc}
use mathlib.Core.List.Permᴰ
use mathlib.Core.List.Permᴰ.{Permᴰ}
use native.Mathlib.Omega.{arith}
use Prim.Native.String.{String}
use text.Mathlib.TextEquality.{eq_iff}
use tls_proxy_tunnel.Base.Lists.{All}
use tls_proxy_tunnel.Base.Sets.{contains, Distinct}
use tls_proxy_tunnel.Base.Dict.{Dict, get, contains_key, keys}

pub contains-Permᴰ :
    {xs ys : List String} (k : String) → Permᴰ xs ys → contains xs k ≡ contains ys k
unfolding contains
contains-Permᴰ k Permᴰ.nil = refl
contains-Permᴰ k (Permᴰ.cons e p) = ground (arith, contains-Permᴰ k p)
contains-Permᴰ k (Permᴰ.swap e f) = ground arith
contains-Permᴰ k (Permᴰ.trans p q) = contains-Permᴰ k p ∙ contains-Permᴰ k q

pub All-Permᴰ {ℓ κ} :
    {A : Type ℓ} (P : A → Type κ) {xs ys : List A} → Permᴰ xs ys → All P xs → All P ys
All-Permᴰ P Permᴰ.nil h = h
All-Permᴰ P (Permᴰ.cons e p) h = (subst P e h.0, All-Permᴰ P p h.1)
All-Permᴰ P (Permᴰ.swap e f) h = (subst P f h.1.0, (subst P e h.0, h.1.1))
All-Permᴰ P (Permᴰ.trans p q) h = All-Permᴰ P q (All-Permᴰ P p h)

pub Distinct-Permᴰ : {xs ys : List String} → Permᴰ xs ys → Distinct xs → Distinct ys
unfolding contains
Distinct-Permᴰ Permᴰ.nil h = h
Distinct-Permᴰ (Permᴰ.cons {a} {b} e p) h =
    (ground (arith, contains-Permᴰ a p), Distinct-Permᴰ p h.1)
Distinct-Permᴰ (Permᴰ.swap {a} {b} e f) h =
    (ground (arith, eq_iff a b, eq_iff b a), (ground (arith, eq_iff a b, eq_iff b a), h.1.1))
Distinct-Permᴰ (Permᴰ.trans p q) h = Distinct-Permᴰ q (Distinct-Permᴰ p h)

-- The lists of some values, one after the other.
abbrev pub gather {ℓ} : {V : Type ℓ} → (V → List String) → Dict V → List String
gather f [] = []
gather f ((k, v) ∷ m) = f v ++ gather f m

swap_lists : (xs ys zs : List String) → Permᴰ (xs ++ (ys ++ zs)) (ys ++ (xs ++ zs))
swap_lists xs ys zs =
    subst (λ l. Permᴰ l (ys ++ (xs ++ zs))) (append_assoc xs ys zs)
      (subst (Permᴰ ((xs ++ ys) ++ zs)) (append_assoc ys xs zs)
        (Permᴰ.append_right zs (Permᴰ.append_comm xs ys)))

pub gather-Permᴰ {ℓ} :
    {V : Type ℓ} (f : V → List String) {m m' : Dict V}
    → Permᴰ m m'
    → Permᴰ (gather f m) (gather f m')
gather-Permᴰ f Permᴰ.nil = Permᴰ.nil
gather-Permᴰ f (Permᴰ.cons {a} {b} {l₁} {l₂} e p) =
    subst (λ c. Permᴰ (f a.1 ++ gather f l₁) (f c.1 ++ gather f l₂)) e
      (Permᴰ.append_left (f a.1) (gather-Permᴰ f p))
gather-Permᴰ f (Permᴰ.swap {a} {b} {a'} {b'} {l} e e') =
    subst (λ c. Permᴰ (f a.1 ++ (f b.1 ++ gather f l)) (f c.1 ++ (f b'.1 ++ gather f l))) e'
      (subst (λ c. Permᴰ (f a.1 ++ (f b.1 ++ gather f l)) (f b.1 ++ (f c.1 ++ gather f l))) e
        (swap_lists (f a.1) (f b.1) (gather f l)))
gather-Permᴰ f (Permᴰ.trans p q) = Permᴰ.trans (gather-Permᴰ f p) (gather-Permᴰ f q)

pub keys-Permᴰ {ℓ} : {V : Type ℓ} {m m' : Dict V} → Permᴰ m m' → Permᴰ (keys m) (keys m')
keys-Permᴰ Permᴰ.nil = Permᴰ.nil
keys-Permᴰ (Permᴰ.cons e p) = Permᴰ.cons (ap (λ c. c.0) e) (keys-Permᴰ p)
keys-Permᴰ (Permᴰ.swap e e') = Permᴰ.swap (ap (λ c. c.0) e) (ap (λ c. c.0) e')
keys-Permᴰ (Permᴰ.trans p q) = Permᴰ.trans (keys-Permᴰ p) (keys-Permᴰ q)

pub contains-keys {ℓ} :
    {V : Type ℓ} (m : Dict V) (k : String) → contains (keys m) k ≡ contains_key m k
unfolding contains contains_key get
contains-keys [] k = refl
contains-keys ((j, v) ∷ m) k = ground (arith, contains-keys m k)
