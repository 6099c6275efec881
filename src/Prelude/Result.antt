-- ===== src/Prelude/Result.antt =====
-- What the client code throws, and the outcome of a call that may throw.
use Prim.Native.Nat.{ℕ}
use mathlib.Core.Path.{◌≡◌, refl}
use mathlib.Core.Logic.{◌⊎◌, inl, inr}

-- `reference_error` is the engine's for a name that is not declared, `type_error` for a property of null
-- or undefined, `range_error` for a negative array length, `cannot_backup n` the error of `rQwait`, `stray`
-- no error of the code but the end of what the model of the receive queue can follow, and `failure n` any
-- error of a callback.
pub data Exception : Type 0 where
  reference_error range_error type_error stray : Exception
  cannot_backup : ℕ → Exception
  failure : ℕ → Exception

pub data Result {ℓ} (A : Type ℓ) : Type ℓ where
  ok : A → Result A
  err : Exception → Result A

pub Result-cases {ℓ} :
    {A : Type ℓ} (r : Result A) → ((a : A) × (r ≡ ok a)) ⊎ ((e : Exception) × (r ≡ err e))
Result-cases (ok a) = inl (a, refl)
Result-cases (err e) = inr (e, refl)
