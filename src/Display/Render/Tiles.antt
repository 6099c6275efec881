-- ===== src/Display/Render/Tiles.antt =====
-- What a tile of statics/include/display.js shows: `startTile`, calls of `subTile`, `finishTile`.
use routercenter_old.Prelude.{
  ℕ, zero, suc, ◌+◌, ◌*◌, ◌≡◌, ◌<◌, ◌≤◌, refl, ◌∙◌, Bool, true, false, ◌&&◌, ◌||◌, Option, none,
  some, List, [], ◌∷◌, ◌++◌, length, get_elem?, replicate, length-replicate, ◌==◌, if◌then◌else◌,
  arith,
}
use routercenter_old.Prelude.All.{All}
use routercenter_old.Prelude.Array.{read}
use routercenter_old.Prelude.Int.{ℤ, ◌-ℤ◌}
use routercenter_old.Prelude.Grid.{row_below}
use routercenter_old.Display.{Pixel, Image, put, Display, draw}
use routercenter_old.Display.Render.{
  bgr_of, opaque, new_tile, plain, start_tile, paint_rows, sub_tile, finish_tile,
}
use routercenter_old.Display.Render.Cells.{covers, paint_rows_lem, length-paint_rows}

-- A call of `subTile`.
pub record Part : Type 0 where
  pub x : ℕ
  pub y : ℕ
  pub w : ℕ
  pub h : ℕ
  pub color : List (Option ℕ)

-- A colour as it is shown in true colour.
abbrev pub shown_as : List (Option ℕ) → Pixel
shown_as color = opaque (read color 2) (read color 1) (read color 0)

unfoldable pub sub_tiles : List Part → Display → Option Display
sub_tiles [] s = some s
sub_tiles (p ∷ ps) s = elim (sub_tile p.x p.y p.w p.h p.color s) [
  | none ↦ none
  | some s' ↦ sub_tiles ps s'
]

-- What a cell is to show: the colour of the last part that covers it, or the one of the tile.
unfoldable pub colour_at : Pixel → List Part → ℕ → ℕ → Pixel
colour_at px [] a b = px
colour_at px (p ∷ ps) a b =
    colour_at (if covers p.x p.y p.w p.h a b then shown_as p.color else px) ps a b

-- The image that the parts leave.
unfoldable pub painted : List Part → ℕ → List Pixel → List Pixel
painted [] width px = px
painted (p ∷ ps) width px =
    painted ps width (paint_rows p.h p.x p.y p.w width (shown_as p.color) px)

sub_tiles-painted :
    (ps : List Part) (im : Image) (s : Display)
    → s.prefer_js ≡ true
    → s.true_color ≡ true
    → sub_tiles ps (record s { tile = some im })
      ≡ some (record s { tile = some (record im { pixels = painted ps im.width im.pixels }) })
unfolding sub_tiles painted sub_tile
sub_tiles-painted [] im s j t = refl
sub_tiles-painted (p ∷ ps) im s j t =
    rw (j, t)
      (sub_tiles-painted ps
        (record im { pixels = paint_rows p.h p.x p.y p.w im.width (shown_as p.color) im.pixels })
        (record s { prefer_js = true; true_color = true }) refl refl)

if_some {ℓ} :
    {A : Type ℓ} (b : Bool) (x y : A) → (if b then some x else some y) ≡ some (if b then x else y)
if_some true x y = refl
if_some false x y = refl

painted-colour_at :
    (ps : List Part) (width : ℕ) (pixels : List Pixel) (px : Pixel) (a b : ℕ)
    → All (λ p. p.x + p.w ≤ width) ps
    → a < width
    → a + b * width < length pixels
    → get_elem? pixels (a + b * width) ≡ some px
    → get_elem? (painted ps width pixels) (a + b * width) ≡ some (colour_at px ps a b)
unfolding painted colour_at
painted-colour_at [] width pixels px a b fits la inside e = e
painted-colour_at (p ∷ ps) width pixels px a b fits la inside e =
    painted-colour_at ps width (paint_rows p.h p.x p.y p.w width (shown_as p.color) pixels)
      (if covers p.x p.y p.w p.h a b then shown_as p.color else px) a b fits.1 la
      (rw (length-paint_rows p.h p.x p.y p.w width (shown_as p.color) pixels) inside)
      (paint_rows_lem p.h p.x p.y p.w width (shown_as p.color) pixels a b fits.0 la inside
        ∙ rw (e, if_some) refl)

get_elem?-replicate : (n k : ℕ) (px : Pixel) → k < n → get_elem? (replicate n px) k ≡ some px
get_elem?-replicate zero k px lt = elim lt [ ]
get_elem?-replicate (suc n) zero px lt = refl
get_elem?-replicate (suc n) (suc k) px lt = get_elem?-replicate n k px (omega arith)

-- The pixel of a new image.
abbrev blank : Pixel
blank = record { red = 0; green = 0; blue = 0; alpha = 0 }

new_tile_lem :
    (width height : ℕ)
    → (width == 16 && height == 16) ≡ false
    → (width == 0 || height == 0) ≡ false
    → new_tile width height
      ≡ some (some (record { width = width; pixels = replicate (width * height) blank }))
unfolding new_tile
new_tile_lem width height big some_cell = rw (big, some_cell) refl

start_tile_lem :
    (x y : ℤ) (width height : ℕ) (color : List (Option ℕ)) (im : Image) (s : Display)
    → s.prefer_js ≡ true
    → s.true_color ≡ true
    → new_tile width height ≡ some (some im)
    → start_tile x y width height color s
      ≡ some (record s {
        tile_x = x;
        tile_y = y;
        prefer_js = true;
        true_color = true;
        tile = some (plain im (shown_as color));
      })
unfolding start_tile bgr_of
start_tile_lem x y width height color im s j t e = rw (e, j, t) refl

cell_inside : (width height a b : ℕ) → a < width → b < height → a + b * width < width * height
cell_inside width height a b la lb = omega (arith, row_below width 0 height a b la lb)

-- What the three calls in their order draw.
unfoldable pub tile_drawn : ℤ → ℤ → ℕ → ℕ → List (Option ℕ) → List Part → Display → Option Display
tile_drawn x y width height color ps s = elim (start_tile x y width height color s) [
  | none ↦ none
  | some s' ↦ elim (sub_tiles ps s') [ none ↦ none | some s'' ↦ finish_tile s'' ]
]

-- An image that shows the parts on the colour, drawn once where the tile is.
pub record Tiled (x y : ℤ) (width height : ℕ) (color : List (Option ℕ)) (ps : List Part)
    (s : Display) : Type 0 where
  pub after : Display
  pub image : Image
  pub drawn : tile_drawn x y width height color ps s ≡ some after
  pub same_width : image.width ≡ width
  pub once : after.draws ≡ s.draws ++ put image (x -ℤ s.view.x) (y -ℤ s.view.y) ∷ []
  pub cells :
      (a b : ℕ)
      → a < width
      → b < height
      → get_elem? image.pixels (a + b * width) ≡ some (colour_at (shown_as color) ps a b)

-- In true colour and with images, a tile that is not empty and not 16 by 16 is drawn once, as one image,
-- and each of its cells has the colour of the last part that covers it, or the colour the tile began with,
-- when no part is wider than what is right of its corner.
pub tile_drawn-Tiled :
    (x y : ℤ) (width height : ℕ) (color : List (Option ℕ)) (ps : List Part) (s : Display)
    → s.prefer_js ≡ true
    → s.true_color ≡ true
    → (width == 16 && height == 16) ≡ false
    → (width == 0 || height == 0) ≡ false
    → All (λ p. p.x + p.w ≤ width) ps
    → Tiled x y width height color ps s
unfolding tile_drawn plain finish_tile
tile_drawn-Tiled x y width height color ps s j t big some_cell fits =
    let size = length (replicate (width * height) blank) in
    let pixels = replicate size (shown_as color) in
    let s' : Display = record s { tile_x = x; tile_y = y; prefer_js = true; true_color = true } in
    let result : Image = record { width = width; pixels = painted ps width pixels } in
    record {
      after = draw (put result (x -ℤ s.view.x) (y -ℤ s.view.y)) (record s' { tile = some result });
      image = result;
      drawn =
          rw
            (
              tile_drawn,
              start_tile_lem x y width height color
                  (record { width = width; pixels = replicate (width * height) blank }) s j t
                  (new_tile_lem width height big some_cell),
              sub_tiles-painted ps (record { width = width; pixels = pixels }) s' refl refl,
            )
            refl;
      same_width = refl;
      once = refl;
      cells = λ a b la lb.
          let inside : a + b * width < size =
            rw (length-replicate (width * height) blank) (cell_inside width height a b la lb) in
          painted-colour_at ps width pixels (shown_as color) a b fits la
            (rw (length-replicate size (shown_as color)) inside)
            (get_elem?-replicate size (a + b * width) (shown_as color) inside);
    }
