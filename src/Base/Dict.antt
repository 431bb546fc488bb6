-- ===== src/Base/Dict.antt =====
-- `HashMap<String, V>` as an association list. The order of the list is the order in which the
-- program iterates, which is any.
use mathlib.Core.Path.{◌≡◌, refl}
use mathlib.Core.Bool.{Bool, true, false}
use mathlib.Core.Option.{Option, none, some}
use mathlib.Core.List.{List, [], ◌∷◌}
use mathlib.Core.Logic.{inl, inr}
use native.Mathlib.Omega.{arith}
use Prim.Native.String.{String}
use text.Mathlib.TextEquality.{eq_iff}
use tls_proxy_tunnel.Base.Tests.{str_eq, if◌then◌else◌, Option-cases}

abbrev pub Dict {ℓ} : Type ℓ → Type ℓ
Dict V = List (String × V)

module _ {ℓ} {V : Type ℓ} where
  unfoldable pub get : Dict V → String → Option V
  get [] k = none
  get ((j, v) ∷ m) k = if str_eq j k then some v else get m k

  -- An entry that is there is replaced.
  unfoldable pub insert : Dict V → String → V → Dict V
  insert [] k v = (k, v) ∷ []
  insert ((j, w) ∷ m) k v = if str_eq j k then (j, v) ∷ m else (j, w) ∷ insert m k v

  unfoldable pub contains_key : Dict V → String → Bool
  unfolding get
  contains_key m k = elim (get m k) [ none ↦ false | some v ↦ true ]

  abbrev pub keys : Dict V → List String
  keys [] = []
  keys ((k, v) ∷ m) = k ∷ keys m

  abbrev pub values : Dict V → List V
  values [] = []
  values ((k, v) ∷ m) = v ∷ values m

  pub get-insert :
      (m : Dict V) (k j : String) (v : V)
      → get (insert m k v) j ≡ (if str_eq k j then some v else get m j)
  unfolding get insert
  get-insert [] k j v = refl
  get-insert ((i, w) ∷ m) k j v =
      ground (arith, eq_iff k j, eq_iff i k, eq_iff i j, get-insert m k j v)

  pub contains_key-insert :
      (m : Dict V) (k j : String) (v : V)
      → contains_key (insert m k v) j ≡ (if str_eq k j then true else contains_key m j)
  unfolding contains_key
  contains_key-insert m k j v = rw (contains_key, get-insert m k j v) (ground arith)

  pub some_of_contains_key :
      (m : Dict V) (k : String) → contains_key m k ≡ true → (v : V) × (get m k ≡ some v)
  unfolding contains_key
  some_of_contains_key m k h = ground arith

  pub contains_key_of_some :
      (m : Dict V) (k : String) {v : V} → get m k ≡ some v → contains_key m k ≡ true
  unfolding contains_key
  contains_key_of_some m k h = rw (contains_key, h) refl

module _ {ℓ κ} {V : Type ℓ} {W : Type κ} (f : V → W) where
  unfoldable pub map_values : Dict V → Dict W
  map_values [] = []
  map_values ((k, v) ∷ m) = (k, f v) ∷ map_values m

  pub get-map_values-some :
      (m : Dict V) (k : String) (v : V) → get m k ≡ some v → get (map_values m) k ≡ some (f v)
  unfolding get map_values
  get-map_values-some [] k v h = cc
  get-map_values-some ((j, w) ∷ m) k v h = ground (arith, get-map_values-some m k v)

  pub get-map_values-none : (m : Dict V) (k : String) → get m k ≡ none → get (map_values m) k ≡ none
  unfolding get map_values
  get-map_values-none [] k h = refl
  get-map_values-none ((j, w) ∷ m) k h = ground (arith, get-map_values-none m k)

  pub contains_key-map_values :
      (m : Dict V) (k : String) → contains_key (map_values m) k ≡ contains_key m k
  unfolding contains_key
  contains_key-map_values m k = elim (Option-cases (get m k)) [
    | inl e ↦ ground (arith, get-map_values-none m k e)
    | inr (v, e) ↦ ground (arith, get-map_values-some m k v e)
  ]
