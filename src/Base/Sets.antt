-- ===== src/Base/Sets.antt =====
-- `HashSet<String>` as a list of texts, and lists without repetition.
use mathlib.Core.Path.{◌≡◌, refl, subst}
use mathlib.Core.Logic.{◌⊎◌, inl, inr, ◌↔◌}
use mathlib.Core.Bool.{Bool, true, false, ◌||◌}
use mathlib.Core.List.{List, [], ◌∷◌, ◌++◌}
use native.Mathlib.Omega.{arith}
use Prim.Native.String.{String}
use text.Mathlib.TextEquality.{eq_iff}
use text.Mathlib.TextPositions.{eq_refl}
use tls_proxy_tunnel.Base.Tests.{str_eq, if◌then◌else◌, Bool-cases}
use tls_proxy_tunnel.Base.Lists.{All}

-- `HashSet<String>` as a list: `contains`, and `insert`, which keeps one copy.
unfoldable pub contains : List String → String → Bool
contains [] k = false
contains (x ∷ xs) k = str_eq x k || contains xs k

unfoldable pub insert_set : String → List String → List String
unfolding contains
insert_set k xs = if contains xs k then xs else k ∷ xs

pub contains-append :
    (xs ys : List String) (k : String) → contains (xs ++ ys) k ≡ (contains xs k || contains ys k)
unfolding contains
contains-append [] ys k = refl
contains-append (x ∷ xs) ys k = ground (arith, contains-append xs ys k)

pub contains-insert_set :
    (k j : String) (xs : List String) → contains (insert_set k xs) j ≡ (str_eq k j || contains xs j)
unfolding insert_set contains
contains-insert_set k j xs = elim (eq_cases k j) [
  | inl e ↦ rw e (ground arith)
  | inr e ↦ ground arith
]
  where
    eq_cases : (k j : String) → (k ≡ j) ⊎ (str_eq k j ≡ false)
    eq_cases k j = ground (arith, eq_iff k j)

pub contains-insert_set_self : (k : String) (xs : List String) → contains (insert_set k xs) k ≡ true
contains-insert_set_self k xs = rw (contains-insert_set k k xs, eq_refl k)

-- No text stands twice in the list.
abbrev pub Distinct : List String → Type 0
Distinct [] = Unit
Distinct (x ∷ xs) = (contains xs x ≡ false) × Distinct xs

All-contains :
    (P : String → Type 0) (xs : List String) (k : String) → All P xs → contains xs k ≡ true → P k
unfolding contains
All-contains P [] k h c = cc
All-contains P (x ∷ xs) k h c = elim (Bool-cases (str_eq x k)) [
  | inl e ↦ subst P ((eq_iff x k).0 e) h.0
  | inr e ↦ All-contains P xs k h.1 (ground arith)
]

pub All-insert_set :
    (P : String → Type 0) (k : String) (xs : List String)
    → (P k → All P xs → All P (insert_set k xs)) × (All P (insert_set k xs) → P k × All P xs)
unfolding insert_set
All-insert_set P k xs = elim (Bool-cases (contains xs k)) [
  | inl e ↦ (
    λ p h. rw (insert_set, e) h,
    λ h. let h' = (rw (insert_set, e) at h) in (All-contains P xs k h' e, h'),
  )
  | inr e ↦ (λ p h. rw (insert_set, e) (p, h), λ h. (rw (insert_set, e) at h))
]

-- No member of the first list stands in the second.
abbrev pub Apart : List String → List String → Type 0
Apart xs seen = All (λ x. contains seen x ≡ false) xs

-- What stands apart from a set with one more member.
pub Apart-insert_set :
    (xs : List String) (k : String) (seen : List String)
    → Apart xs (insert_set k seen)
    → (contains xs k ≡ false) × Apart xs seen
unfolding contains
Apart-insert_set [] k seen h = (refl, tt)
Apart-insert_set (x ∷ xs) k seen (h, hs) =
    let (absent, apart) = Apart-insert_set xs k seen hs in
    let parts : (str_eq k x || contains seen x) ≡ false = rw contains-insert_set at h in
    (ground (arith, eq_iff k x, eq_iff x k), (ground arith, apart))

pub Apart-insert_set_of :
    (xs : List String) (k : String) (seen : List String)
    → contains xs k ≡ false
    → Apart xs seen
    → Apart xs (insert_set k seen)
unfolding contains
Apart-insert_set_of [] k seen c h = tt
Apart-insert_set_of (x ∷ xs) k seen c (h, hs) = (
  rw contains-insert_set (ground (arith, eq_iff k x, eq_iff x k)),
  Apart-insert_set_of xs k seen (ground arith) hs,
)

-- A set that has the members of two lists.
abbrev pub IsUnion : List String → List String → List String → Type 0
IsUnion zs xs ys = (k : String) → contains zs k ≡ (contains xs k || contains ys k)

pub Apart-union :
    (ws xs ys zs : List String) → IsUnion zs xs ys → Apart ws zs ↔ (Apart ws xs × Apart ws ys)
Apart-union [] xs ys zs u = (λ h. (tt, tt), λ h. tt)
Apart-union (w ∷ ws) xs ys zs u =
    let ih = Apart-union ws xs ys zs u in
    (
      λ h. let (a, b) = ih.0 h.1 in ((ground (arith, u w, h.0), a), (ground (arith, u w, h.0), b)),
      λ h. (ground (arith, u w, h.0.0, h.1.0), ih.1 (h.0.1, h.1.1)),
    )

pub Apart-nil : (xs : List String) → Apart xs []
unfolding contains
Apart-nil [] = tt
Apart-nil (x ∷ xs) = (refl, Apart-nil xs)

Apart-singleton : (ys : List String) (x : String) → Apart ys (x ∷ []) ↔ (contains ys x ≡ false)
unfolding contains
Apart-singleton [] x = (λ h. refl, λ h. tt)
Apart-singleton (y ∷ ys) x =
    let ih = Apart-singleton ys x in
    (
      λ h. ground (arith, eq_iff x y, eq_iff y x, h.0, ih.0 h.1),
      λ h. (ground (arith, eq_iff x y, eq_iff y x), ih.1 (ground arith)),
    )

Apart-cons :
    (ys : List String) (x : String) (xs : List String)
    → Apart ys (x ∷ xs) ↔ ((contains ys x ≡ false) × Apart ys xs)
unfolding contains
Apart-cons ys x xs =
    let u : IsUnion (x ∷ xs) (x ∷ []) xs = λ k. ground arith in
    let both = Apart-union ys (x ∷ []) xs (x ∷ xs) u in
    let one = Apart-singleton ys x in
    (λ h. (one.0 (both.0 h).0, (both.0 h).1), λ h. both.1 (one.1 h.0, h.1))

pub Distinct-append :
    (xs ys : List String) → Distinct (xs ++ ys) ↔ (Distinct xs × Distinct ys × Apart ys xs)
Distinct-append [] ys = (λ h. (tt, h, Apart-nil ys), λ h. h.1)
Distinct-append (x ∷ xs) ys =
    let ih = Distinct-append xs ys in
    let c = contains-append xs ys x in
    let k = Apart-cons ys x xs in
    (
      λ h.
          let (dx, dy, a) = ih.0 h.1 in
          let absent : (contains xs x || contains ys x) ≡ false = rw contains-append at h.0 in
          ((ground arith, dx), dy, k.1 (ground arith, a)),
      λ h. let (absent, a) = k.0 h.2 in (rw contains-append (ground arith), ih.1 (h.0.1, h.1, a)),
    )
