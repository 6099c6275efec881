-- ===== src/Display/Render/Cells.antt =====
-- Which cells of an image the loops of `subTile` in statics/include/display.js write.
use routercenter_old.Prelude.{
  ℕ, zero, suc, ◌+◌, ◌*◌, ◌≡◌, ◌<◌, ◌≤◌, refl, ap, ◌∙◌, Bool, true, false, ◌&&◌, ◌||◌, inl, inr,
  Bool-cases, ==_iff, some, List, length, set, get_elem?, length-set, get_elem?-set_self,
  get_elem?-set_ne, ltb, leb, ◌==◌, if◌then◌else◌, arith,
}
use routercenter_old.Display.{Pixel}
use routercenter_old.Display.Render.{paint_cells, paint_rows}
use routercenter_old.Prelude.Grid.{row_column}

-- Whether a cell is within a rectangle.
unfoldable pub covers : ℕ → ℕ → ℕ → ℕ → ℕ → ℕ → Bool
covers x y w h a b = leb x a && ltb a (x + w) && leb y b && ltb b (y + h)

covers_none : (i j a b : ℕ) → covers i j 0 1 a b ≡ false
unfolding covers
covers_none i j a b = ground arith

covers_first : (n i j a b : ℕ) → (i ≡ a) × (j ≡ b) → covers i j (suc n) 1 a b ≡ true
unfolding covers
covers_first n i j a b h = ground arith

covers_later :
    (n i j a b : ℕ) → ¬ ((i ≡ a) × (j ≡ b)) → covers i j (suc n) 1 a b ≡ covers (i + 1) j n 1 a b
unfolding covers
covers_later n i j a b h = ground arith

same_address : (width : ℕ) {a b i j : ℕ} → (i ≡ a) × (j ≡ b) → i + j * width ≡ a + b * width
same_address width (e, e') = rw (e, e') refl

if_same {ℓ} : {A : Type ℓ} (b : Bool) (x : A) → (if b then x else x) ≡ x
if_same true x = refl
if_same false x = refl

set-covers :
    (n i j width : ℕ) (px : Pixel) (ps : List Pixel) (a b : ℕ)
    → i < width
    → a < width
    → a + b * width < length ps
    → (if covers (i + 1) j n 1 a b
        then some px
        else get_elem? (set ps (i + j * width) px) (a + b * width))
      ≡ (if covers i j (suc n) 1 a b then some px else get_elem? ps (a + b * width))
set-covers n i j width px ps a b li la inside = elim (Bool-cases (i + j * width == a + b * width)) [
  | inl t ↦
      let e = (==_iff (i + j * width) (a + b * width)).0 t in
      rw
        (
          covers_first n i j a b (row_column width a b i j la li e),
          e,
          get_elem?-set_self ps (a + b * width) px inside,
        )
        (if_same (covers (i + 1) j n 1 a b) (some px))
  | inr f ↦
      let apart : ¬ (i + j * width ≡ a + b * width) = λ e. ground arith in
      rw (covers_later n i j a b (λ h. apart (same_address width h)), get_elem?-set_ne ps px apart)
        refl
]

paint_cells_lem :
    (n i j width : ℕ) (px : Pixel) (ps : List Pixel) (a b : ℕ)
    → i + n ≤ width
    → a < width
    → a + b * width < length ps
    → get_elem? (paint_cells n i j width px ps) (a + b * width)
      ≡ (if covers i j n 1 a b then some px else get_elem? ps (a + b * width))
unfolding paint_cells
paint_cells_lem zero i j width px ps a b fits la inside = rw (covers_none i j a b) refl
paint_cells_lem (suc n) i j width px ps a b fits la inside =
    paint_cells_lem n (i + 1) j width px (set ps (i + j * width) px) a b (omega arith) la
      (rw (length-set ps (i + j * width) px) inside)
    ∙ set-covers n i j width px ps a b (omega arith) la inside

length-paint_cells :
    (n i j width : ℕ) (px : Pixel) (ps : List Pixel)
    → length (paint_cells n i j width px ps) ≡ length ps
unfolding paint_cells
length-paint_cells zero i j width px ps = refl
length-paint_cells (suc n) i j width px ps =
    length-paint_cells n (i + 1) j width px (set ps (i + j * width) px)
    ∙ length-set ps (i + j * width) px

pub length-paint_rows :
    (n x j w width : ℕ) (px : Pixel) (ps : List Pixel)
    → length (paint_rows n x j w width px ps) ≡ length ps
unfolding paint_rows
length-paint_rows zero x j w width px ps = refl
length-paint_rows (suc n) x j w width px ps =
    length-paint_rows n x (j + 1) w width px (paint_cells w x j width px ps)
    ∙ length-paint_cells w x j width px ps

covers_no_row : (x j w a b : ℕ) → covers x j w 0 a b ≡ false
unfolding covers
covers_no_row x j w a b = ground arith

covers_rows :
    (x j w n a b : ℕ) → covers x j w (suc n) a b ≡ (covers x (j + 1) w n a b || covers x j w 1 a b)
unfolding covers
covers_rows x j w n a b = ground arith

if_or {ℓ} :
    {A : Type ℓ} (b c : Bool) (x y : A)
    → (if b then x else (if c then x else y)) ≡ (if (b || c) then x else y)
if_or true c x y = refl
if_or false c x y = refl

pub paint_rows_lem :
    (n x j w width : ℕ) (px : Pixel) (ps : List Pixel) (a b : ℕ)
    → x + w ≤ width
    → a < width
    → a + b * width < length ps
    → get_elem? (paint_rows n x j w width px ps) (a + b * width)
      ≡ (if covers x j w n a b then some px else get_elem? ps (a + b * width))
unfolding paint_rows
paint_rows_lem zero x j w width px ps a b fits la inside = rw (covers_no_row x j w a b) refl
paint_rows_lem (suc n) x j w width px ps a b fits la inside =
    paint_rows_lem n x (j + 1) w width px (paint_cells w x j width px ps) a b fits la
      (rw (length-paint_cells w x j width px ps) inside)
    ∙ ap (λ z. if covers x (j + 1) w n a b then some px else z)
        (paint_cells_lem w x j width px ps a b fits la inside)
    ∙ rw (if_or, covers_rows x j w n a b) refl
