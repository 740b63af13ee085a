-- ===== src/Prelude/Digits.antt =====
-- The decimal text of a number.
use Prim.Native.Nat.{ℕ, zero, suc, ◌+◌, ◌/◌, ◌%◌, ◌≤◌}
use mathlib.Core.Path.{◌≡◌, refl}
use mathlib.Core.Logic.{inl, inr}
use mathlib.Core.Bool.{false}
use mathlib.Core.List.{[], ◌∷◌, ◌++◌}
use native.Mathlib.Omega.{arith}
use orchis_foundry.Prelude.Tests.{ltb, if◌then◌else◌, Bool-cases}
use orchis_foundry.Prelude.Text.{Str}

-- The digits of a number, with as many rounds as are allowed.
unfoldable pub digits : ℕ → ℕ → Str
digits zero n = []
digits (suc k) n =
    let front = digits k (n / 10) in if ltb n 10 then (48 + n) ∷ [] else front ++ (48 + n % 10) ∷ []

below : (n : ℕ) → ltb n 10 ≡ false → suc (n / 10) ≤ n
below n f = let ten : 10 ≤ n = ground arith in omega (arith, ten)

digits_same : (k m n : ℕ) → suc n ≤ k → suc n ≤ m → digits k n ≡ digits m n
unfolding digits
digits_same zero m n h g = let n : ⊥ = omega (arith, h) in absurd n
digits_same (suc k) zero n h g = let n : ⊥ = omega (arith, g) in absurd n
digits_same (suc k) (suc m) n h g = elim (Bool-cases (ltb n 10)) [
  | inl t ↦ rw t refl
  | inr f ↦
      rw (f, digits_same k m (n / 10) (omega (arith, h, below n f)) (omega (arith, g, below n f)))
        refl
]

-- The rounds that `string_of` allows are enough for all digits.
digits-enough : (k n : ℕ) → suc n ≤ k → digits k n ≡ digits (suc n) n
digits-enough k n h = digits_same k (suc n) n h (omega arith)
