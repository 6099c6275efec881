-- ===== src/Prelude/Array.antt =====
-- JavaScript arrays: a read out of range is `undefined` (`none`), and a write past the end fills
-- the gap with `undefined`.
use Prim.Native.Nat.{ℕ, zero, suc, ◌<◌}
use native.Mathlib.Omega.{arith}
use mathlib.Core.Path.{◌≡◌, refl, ap}
use mathlib.Core.Option.{Option, none, some}
use mathlib.Core.List.{List, [], ◌∷◌, ◌++◌}
use routercenter_old.Prelude.Lists.{length, get_elem?}

abbrev pub join {ℓ} : {A : Type ℓ} → Option (Option A) → Option A
join none = none
join (some v) = v

-- `a[i]`
abbrev pub read {ℓ} : {A : Type ℓ} → List (Option A) → ℕ → Option A
read xs i = join (get_elem? xs i)

-- `a[i] = v`
unfoldable pub write {ℓ} : {A : Type ℓ} → List (Option A) → ℕ → Option A → List (Option A)
write [] zero v = v ∷ []
write [] (suc i) v = none ∷ write [] i v
write (x ∷ xs) zero v = v ∷ xs
write (x ∷ xs) (suc i) v = x ∷ write xs i v

-- A write at the first slot after a prefix.
pub write-append {ℓ} :
    {A : Type ℓ} (xs : List (Option A)) (x v : Option A) (ys : List (Option A))
    → write (xs ++ x ∷ ys) (length xs) v ≡ xs ++ v ∷ ys
unfolding write
write-append [] x v ys = refl
write-append (z ∷ zs) x v ys = ap (λ l. z ∷ l) (write-append zs x v ys)

pub length-write {ℓ} :
    {A : Type ℓ} (xs : List (Option A)) (i : ℕ) (v : Option A)
    → i < length xs
    → length (write xs i v) ≡ length xs
unfolding write
length-write [] zero v h = absurd (omega arith)
length-write [] (suc i) v h = absurd (omega arith)
length-write (x ∷ xs) zero v h = refl
length-write (x ∷ xs) (suc i) v h = ap suc (length-write xs i v (omega arith))
