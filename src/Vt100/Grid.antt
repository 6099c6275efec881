-- ===== src/Vt100/Grid.antt =====
-- The screen's rows keep their number and their length.
use routercenter_old.Prelude.{
  ℕ, zero, suc, ◌+◌, ◌≤◌, ◌≡◌, refl, ap, ◌∙◌, List, [], ◌∷◌, length, length-append, arith,
}
use routercenter_old.Prelude.All.{All, All-append}
use routercenter_old.Vt100.{set_range, set_row, set_rows, rotate}

pub length-set_range {ℓ} :
    {A : Type ℓ} (from count : ℕ) (v : A) (xs : List A)
    → from + count ≤ length xs
    → length (set_range from count v xs) ≡ length xs
unfolding set_range
length-set_range zero zero v xs h = refl
length-set_range zero (suc n) v [] h = absurd (omega arith)
length-set_range zero (suc n) v (x ∷ xs) h = ap suc (length-set_range zero n v xs (omega arith))
length-set_range (suc i) n v [] h = refl
length-set_range (suc i) n v (x ∷ xs) h = ap suc (length-set_range i n v xs (omega arith))

abbrev pub HasWidth {ℓ} : {A : Type ℓ} → ℕ → List (List A) → Type 0
HasWidth w rows = All (λ line. length line ≡ w) rows

-- `h` rows of `w` slots
abbrev pub IsGrid {ℓ} : {A : Type ℓ} → ℕ → ℕ → List (List A) → Type 0
IsGrid w h rows = (length rows ≡ h) × HasWidth w rows

pub set_row-HasWidth {ℓ} :
    {A : Type ℓ} (w r from count : ℕ) (v : A) (rows : List (List A))
    → from + count ≤ w
    → HasWidth w rows
    → HasWidth w (set_row r from count v rows)
unfolding set_row
set_row-HasWidth w zero from count v [] h k = tt
set_row-HasWidth w (suc r) from count v [] h k = tt
set_row-HasWidth w zero from count v (line ∷ rows) h k =
    (length-set_range from count v line (omega (arith, k.0)) ∙ k.0, k.1)
set_row-HasWidth w (suc r) from count v (line ∷ rows) h k =
    (k.0, set_row-HasWidth w r from count v rows h k.1)

length-set_row {ℓ} :
    {A : Type ℓ} (r from count : ℕ) (v : A) (rows : List (List A))
    → length (set_row r from count v rows) ≡ length rows
unfolding set_row
length-set_row zero from count v [] = refl
length-set_row (suc r) from count v [] = refl
length-set_row zero from count v (line ∷ rows) = refl
length-set_row (suc r) from count v (line ∷ rows) = ap suc (length-set_row r from count v rows)

pub set_row-IsGrid {ℓ} :
    {A : Type ℓ} (w h r from count : ℕ) (v : A) (rows : List (List A))
    → from + count ≤ w
    → IsGrid w h rows
    → IsGrid w h (set_row r from count v rows)
set_row-IsGrid w h r from count v rows fits grid = (
  length-set_row r from count v rows ∙ grid.0,
  set_row-HasWidth w r from count v rows fits grid.1,
)

set_rows-HasWidth {ℓ} :
    {A : Type ℓ} (w r count : ℕ) (v : A) (rows : List (List A))
    → count ≤ w
    → HasWidth w rows
    → HasWidth w (set_rows r count v rows)
unfolding set_rows
set_rows-HasWidth w zero count v [] h k = tt
set_rows-HasWidth w (suc r) count v [] h k = tt
set_rows-HasWidth w zero count v (line ∷ rows) h k = (
  length-set_range 0 count v line (omega (arith, k.0)) ∙ k.0,
  set_rows-HasWidth w 0 count v rows h k.1,
)
set_rows-HasWidth w (suc r) count v (line ∷ rows) h k =
    (k.0, set_rows-HasWidth w r count v rows h k.1)

length-set_rows {ℓ} :
    {A : Type ℓ} (r count : ℕ) (v : A) (rows : List (List A))
    → length (set_rows r count v rows) ≡ length rows
unfolding set_rows
length-set_rows zero count v [] = refl
length-set_rows (suc r) count v [] = refl
length-set_rows zero count v (line ∷ rows) = ap suc (length-set_rows 0 count v rows)
length-set_rows (suc r) count v (line ∷ rows) = ap suc (length-set_rows r count v rows)

pub set_rows-IsGrid {ℓ} :
    {A : Type ℓ} (w h r count : ℕ) (v : A) (rows : List (List A))
    → count ≤ w
    → IsGrid w h rows
    → IsGrid w h (set_rows r count v rows)
set_rows-IsGrid w h r count v rows fits grid =
    (length-set_rows r count v rows ∙ grid.0, set_rows-HasWidth w r count v rows fits grid.1)

pub rotate-IsGrid {ℓ} :
    {A : Type ℓ} (w h count : ℕ) (v : A) (rows : List (List A))
    → count ≤ w
    → IsGrid w h rows
    → IsGrid w h (rotate count v rows)
unfolding rotate
rotate-IsGrid w h count v [] fits grid = grid
rotate-IsGrid w h count v (line ∷ rows) fits grid =
    let last = set_range 0 count v line in
    (
      omega (arith, length-append rows (last ∷ []), grid.0),
      All-append _ rows (last ∷ []) grid.1.1
          (length-set_range 0 count v line (omega (arith, grid.1.0)) ∙ grid.1.0, tt),
    )
