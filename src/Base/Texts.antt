-- ===== src/Base/Texts.antt =====
-- The code points of a text, and those of a printed number.
use Prim.Native.Nat.{ℕ, zero, suc, ◌+◌, ◌-◌, ◌*◌, ◌/◌, ◌%◌, ◌≤◌, ◌<◌}
use Prim.Native.Char.{code}
use Prim.Native.String
use Prim.Native.String.{String}
use mathlib.Core.Path.{◌≡◌, refl, ap, ◌∙◌}
use mathlib.Core.Logic.{◌≢◌, inl, inr}
use mathlib.Core.List.{List, [], ◌∷◌, ◌++◌}
use native.Mathlib.Omega.{arith}
use text.Mathlib.TextLemmas.{cons-append, nil-append}
use tls_proxy_tunnel.Base.Tests.{ltb, Bool-cases}
use tls_proxy_tunnel.Base.Lists.{All, All-append}
use tls_proxy_tunnel.Base.Show.{show, digit, show_fuel}

abbrev pub codes : String → List ℕ
codes String.[] = []
codes (String.◌∷◌ c s) = code c ∷ codes s

pub codes-append : (s t : String) → codes (String.◌++◌ s t) ≡ codes s ++ codes t
codes-append String.[] t = rw (nil-append t) refl
codes-append (String.◌∷◌ c s) t = rw (cons-append c s t) (ap (λ cs. code c ∷ cs) (codes-append s t))

abbrev pub IsDigit : ℕ → Type 0
IsDigit c = (b'0' ≤ c) × (c ≤ b'9')

-- The number that some digits behind `n` stand for.
abbrev pub value : ℕ → List ℕ → ℕ
value n [] = n
value n (c ∷ cs) = value (n * 10 + (c - b'0')) cs

value-append : (n : ℕ) (xs : List ℕ) (c : ℕ) → value n (xs ++ c ∷ []) ≡ value n xs * 10 + (c - b'0')
value-append n [] c = refl
value-append n (x ∷ xs) c = value-append (n * 10 + (x - b'0')) xs c

codes-digit : (d : ℕ) → d < 10 → codes (digit d) ≡ (b'0' + d) ∷ []
unfolding digit
codes-digit zero h = refl
codes-digit (suc zero) h = refl
codes-digit (suc (suc zero)) h = refl
codes-digit (suc (suc (suc zero))) h = refl
codes-digit (suc (suc (suc (suc zero)))) h = refl
codes-digit (suc (suc (suc (suc (suc zero))))) h = refl
codes-digit (suc (suc (suc (suc (suc (suc zero)))))) h = refl
codes-digit (suc (suc (suc (suc (suc (suc (suc zero))))))) h = refl
codes-digit (suc (suc (suc (suc (suc (suc (suc (suc zero)))))))) h = refl
codes-digit (suc (suc (suc (suc (suc (suc (suc (suc (suc zero))))))))) h = refl
codes-digit (suc (suc (suc (suc (suc (suc (suc (suc (suc (suc n)))))))))) h = absurd (omega arith)

-- The digits of a printed number.
pub record IsPrinted (n : ℕ) (cs : List ℕ) : Type 0 where
  pub digits : All IsDigit cs
  pub some_digit : cs ≢ []
  pub stands_for : value 0 cs ≡ n

append-ne-nil : (xs : List ℕ) (c : ℕ) → xs ++ c ∷ [] ≢ []
append-ne-nil [] c h = cc
append-ne-nil (x ∷ xs) c h = cc

show_fuel-IsPrinted : (f n : ℕ) → n < f → IsPrinted n (codes (show_fuel f n))
unfolding show_fuel
show_fuel-IsPrinted zero n h = absurd (omega arith)
show_fuel-IsPrinted (suc f) n h = elim (Bool-cases (ltb n 10)) [
  | inl small ↦
      let e = codes-digit n (ground arith) in
      rw (small, show_fuel)
        (rw e
          (record { digits = (ground arith, tt); some_digit = λ x. cc; stands_for = omega arith }))
  | inr large ↦
      let front = show_fuel f (n / 10) in
      let i = show_fuel-IsPrinted f (n / 10) (ground arith) in
      let e : codes (String.◌++◌ front (digit (n % 10))) ≡ codes front ++ (b'0' + n % 10) ∷ [] =
        codes-append front (digit (n % 10))
        ∙ ap (λ cs. codes front ++ cs) (codes-digit (n % 10) (omega arith)) in
      rw (large, show_fuel)
        (rw e (record {
          digits =
              All-append IsDigit (codes front) ((b'0' + n % 10) ∷ []) i.digits (omega arith, tt);
          some_digit = append-ne-nil (codes front) (b'0' + n % 10);
          stands_for = omega (arith, value-append 0 (codes front) (b'0' + n % 10), i.stands_for);
        }))
]

-- A printed number is read back from its digits.
pub show-IsPrinted : (n : ℕ) → IsPrinted n (codes (show n))
unfolding show
show-IsPrinted n = show_fuel-IsPrinted (suc n) n (omega arith)
