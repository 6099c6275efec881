-- ===== src/Prelude/Drop.antt =====
-- Tails of lists.
use Prim.Native.Nat.{ℕ, zero, suc, ◌+◌, ◌≤◌}
use mathlib.Core.Path.{◌≡◌, refl, ap, ◌∙◌, sym}
use mathlib.Core.List.{List, [], ◌∷◌, ◌++◌}
use native.Mathlib.Omega.{arith}
use routercenter_old.Prelude.Lists.{length, get_elem?, drop}

pub drop-nil {ℓ} : (A : Type ℓ) (n : ℕ) → drop {A = A} n [] ≡ []
drop-nil A zero = refl
drop-nil A (suc n) = refl

module _ {ℓ} {A : Type ℓ} where
  pub drop-add : (i k : ℕ) (xs : List A) → drop (i + k) xs ≡ drop k (drop i xs)
  drop-add zero k xs = ap (λ n. drop n xs) (omega arith)
  drop-add (suc i) k [] = drop-nil A (suc i + k) ∙ sym (drop-nil A k)
  drop-add (suc i) k (x ∷ xs) =
      let e : suc i + k ≡ suc (i + k) = omega arith in ap (λ n. drop n (x ∷ xs)) e ∙ drop-add i k xs

  pub get_elem?-add : (i k : ℕ) (xs : List A) → get_elem? xs (i + k) ≡ get_elem? (drop i xs) k
  get_elem?-add zero k xs = ap (get_elem? xs) (omega arith)
  get_elem?-add (suc i) k [] = refl
  get_elem?-add (suc i) k (x ∷ xs) =
      let e : suc i + k ≡ suc (i + k) = omega arith in
      ap (get_elem? (x ∷ xs)) e ∙ get_elem?-add i k xs

  pub drop-append : (i : ℕ) (xs ys : List A) → i ≤ length xs → drop i (xs ++ ys) ≡ drop i xs ++ ys
  drop-append zero xs ys h = refl
  drop-append (suc i) [] ys h = absurd (omega arith)
  drop-append (suc i) (x ∷ xs) ys h = drop-append i xs ys (omega arith)

  -- What stands at the head of a tail: the element there and the next tail.
  pub drop_step :
      (i : ℕ) (xs : List A) {x : A} {rest : List A} → drop i xs ≡ x ∷ rest → drop (i + 1) xs ≡ rest
  drop_step i xs e = drop-add i 1 xs ∙ ap (drop 1) e
