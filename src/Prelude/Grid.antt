-- ===== src/Prelude/Grid.antt =====
-- Cells that are numbered row after row.
use Prim.Native.Nat.{ℕ, suc, ◌+◌, ◌*◌, ◌<◌}
use mathlib.Core.Path.{◌≡◌, ap}
use mathlib.Core.Logic.{◌⊎◌, inl, inr}
use native.Mathlib.Nat.{mul-le-mul_right}
use native.Mathlib.Omega.{arith}

order_of : (j b : ℕ) → (j < b) ⊎ ((j ≡ b) ⊎ (b < j))
order_of j b = ground arith

pub row_below : (width a b i j : ℕ) → i < width → j < b → i + j * width < a + b * width
row_below width a b i j lt below = omega (arith, mul-le-mul_right {m = suc j} {n = b} width below)

-- Two cells of an image have one address only if they are the same.
pub row_column :
    (width a b i j : ℕ) → a < width → i < width → i + j * width ≡ a + b * width → (i ≡ a) × (j ≡ b)
row_column width a b i j la li e = elim (order_of j b) [
  | inl lt ↦ absurd (omega (arith, row_below width a b i j li lt))
  | inr (inl same) ↦ (omega (arith, ap (λ z. z * width) same), same)
  | inr (inr lt) ↦ absurd (omega (arith, row_below width i j a b la lt))
]
