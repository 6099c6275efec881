-- ===== src/Display/Render.antt =====
-- statics/include/display.js: drawing, tiles, and the queue of actions that wait for images to load. A
-- function that throws a TypeError of the language or an error of the canvas gives `none`.
pub mod Drawing
pub mod Order
pub mod Drained
pub mod Cells
pub mod Tiles
pub mod Stale
use routercenter_old.Prelude.{
  ℕ, zero, suc, ◌+◌, ◌-◌, ◌*◌, Bool, true, false, not, ◌&&◌, ◌||◌, Option, none, some, List, [],
  ◌∷◌, ◌++◌, length, set, get_elem?, replicate, ltb, ◌==◌, if◌then◌else◌,
}
use routercenter_old.Prelude.Array.{read}
use routercenter_old.Prelude.Int.{ℤ, pos, ◌+ℤ◌, ◌-ℤ◌}
use routercenter_old.Display.{
  Pixel, Image, Draw, filled, copied, put, drawn, cleared, awaited, Action, copy, fill, blit,
  blit_rgb, img, Display, draw, resize,
}
use routercenter_old.Display.Style.{set_style}

infixl 5 ◌>>=◌
abbrev pub ◌>>=◌ {ℓ κ} : {A : Type ℓ} {B : Type κ} → Option A → (A → Option B) → Option B
none >>= f = none
some a >>= f = f a

-- `_colourMap[i]`, of which an element is read at once.
unfoldable pub mapped : Option ℕ → List (List (Option ℕ)) → Option (List (Option ℕ))
mapped none colours = none
mapped (some i) colours = get_elem? colours i

-- The blue, green and red of a colour as the server sends it.
unfoldable pub bgr_of : List (Option ℕ) → Display → Option (List (Option ℕ))
unfolding mapped
bgr_of color s = if s.true_color then some color else mapped (read color 0) s.colour_map

-- The text of the style from a colour as blue, green and red
abbrev pub style_of : List (Option ℕ) → List (Option ℕ)
style_of bgr = read bgr 2 ∷ read bgr 1 ∷ read bgr 0 ∷ []

unfoldable pub set_fill_color : List (Option ℕ) → Display → Option Display
unfolding bgr_of set_style
set_fill_color color s = do bgr ← bgr_of color s; some (set_style (style_of bgr) s)

-- The canvas fills in the style that it has.
unfoldable pub fill_rect : ℤ → ℤ → ℤ → ℤ → List (Option ℕ) → Display → Option Display
unfolding set_fill_color
fill_rect x y width height color s = do
  t ← set_fill_color color s
  some (draw (filled t.fill_style (x -ℤ s.view.x) (y -ℤ s.view.y) width height) t)

unfoldable pub copy_image : ℤ → ℤ → ℤ → ℤ → ℤ → ℤ → Display → Display
copy_image old_x old_y new_x new_y w h s =
    draw
      (copied (old_x -ℤ s.view.x) (old_y -ℤ s.view.y) w h (new_x -ℤ s.view.x) (new_y -ℤ s.view.y)) s

unfoldable pub draw_image : ℕ → ℤ → ℤ → Display → Display
draw_image n x y s = draw (drawn n (x -ℤ s.view.x) (y -ℤ s.view.y)) s

unfoldable pub blit_string_image : ℤ → ℤ → Display → Display
blit_string_image x y s = draw (awaited (x -ℤ s.view.x) (y -ℤ s.view.y)) s

-- A byte of an image: what is undefined is stored as 0.
abbrev pub byte : Option ℕ → ℕ
byte none = 0
byte (some v) = v

abbrev pub opaque : Option ℕ → Option ℕ → Option ℕ → Pixel
opaque r g b = record { red = byte r; green = byte g; blue = byte b; alpha = 255 }

-- The pixels of `_bgrxImageData`, `_rgbImageData` and `_cmapImageData`, `n` of them from `j` on.
unfoldable pub bgrx : ℕ → ℕ → List (Option ℕ) → List Pixel
bgrx zero j arr = []
bgrx (suc n) j arr = opaque (read arr (j + 2)) (read arr (j + 1)) (read arr j) ∷ bgrx n (j + 4) arr

unfoldable pub rgb : ℕ → ℕ → List (Option ℕ) → List Pixel
rgb zero j arr = []
rgb (suc n) j arr = opaque (read arr j) (read arr (j + 1)) (read arr (j + 2)) ∷ rgb n (j + 3) arr

unfoldable pub cmap : List (List (Option ℕ)) → ℕ → ℕ → List (Option ℕ) → Option (List Pixel)
unfolding mapped
cmap colours zero j arr = some []
cmap colours (suc n) j arr = do
  bgr ← mapped (read arr j) colours
  rest ← cmap colours n (j + 1) arr
  some (opaque (read bgr 2) (read bgr 1) (read bgr 0) ∷ rest)

-- `createImageData` and `putImageData`: the canvas has no image without a pixel.
unfoldable pub put_image : ℤ → ℤ → ℕ → ℕ → Option (List Pixel) → Display → Option Display
put_image x y width height none s = none
put_image x y width height (some pixels) s =
    if width == 0 || height == 0
    then none
    else some
        (draw (put (record { width = width; pixels = pixels }) (x -ℤ s.view.x) (y -ℤ s.view.y)) s)

unfoldable pub blit_image : ℤ → ℤ → ℕ → ℕ → List (Option ℕ) → ℕ → Display → Option Display
unfolding bgrx cmap put_image
blit_image x y width height arr offset s =
    put_image x y width height
      (if s.true_color
        then some (bgrx (width * height) offset arr)
        else cmap s.colour_map (width * height) offset arr)
      s

unfoldable pub blit_rgb_image : ℤ → ℤ → ℕ → ℕ → List (Option ℕ) → ℕ → Display → Option Display
unfolding rgb cmap put_image
blit_rgb_image x y width height arr offset s =
    put_image x y width height
      (if s.true_color
        then some (rgb (width * height) offset arr)
        else cmap s.colour_map (width * height) offset arr)
      s

-- The tile of 16 by 16 that should be at hand, `_tile16x16`, is null: nothing sets it. Any other is new.
unfoldable pub new_tile : ℕ → ℕ → Option (Option Image)
new_tile width height =
    if width == 16 && height == 16
    then some none
    else if width == 0 || height == 0
    then none
    else some (
        some (record {
          width = width;
          pixels = replicate (width * height) (record { red = 0; green = 0; blue = 0; alpha = 0 });
        }))

-- Each pixel of the tile gets the colour.
unfoldable pub plain : Image → Pixel → Image
plain tile px = record tile { pixels = replicate (length tile.pixels) px }

unfoldable pub start_tile : ℤ → ℤ → ℕ → ℕ → List (Option ℕ) → Display → Option Display
unfolding new_tile plain fill_rect bgr_of
start_tile x y width height color s = do
  fresh ← new_tile width height
  let s' : Display = record s { tile_x = x; tile_y = y; tile = fresh }
  if s.prefer_js
      then (do
        bgr ← bgr_of color s
        tile ← fresh
        some (record s' {
          tile = some (plain tile (opaque (read bgr 2) (read bgr 1) (read bgr 0)));
        }))
      else fill_rect x y (pos width) (pos height) color s'

-- `n` cells of row `j` from column `i` on; a write past the end of an image does nothing.
unfoldable pub paint_cells : ℕ → ℕ → ℕ → ℕ → Pixel → List Pixel → List Pixel
paint_cells zero i j width px ps = ps
paint_cells (suc n) i j width px ps = paint_cells n (i + 1) j width px (set ps (i + j * width) px)

unfoldable pub paint_rows : ℕ → ℕ → ℕ → ℕ → ℕ → Pixel → List Pixel → List Pixel
unfolding paint_cells
paint_rows zero x j w width px ps = ps
paint_rows (suc n) x j w width px ps =
    paint_rows n x (j + 1) w width px (paint_cells w x j width px ps)

unfoldable pub sub_tile : ℕ → ℕ → ℕ → ℕ → List (Option ℕ) → Display → Option Display
unfolding paint_rows fill_rect bgr_of
sub_tile x y w h color s =
    if s.prefer_js
    then (do
      bgr ← bgr_of color s
      tile ← s.tile
      some (record s {
        tile = some (record tile {
          pixels =
              paint_rows h x y w tile.width (opaque (read bgr 2) (read bgr 1) (read bgr 0))
                tile.pixels;
        });
      }))
    else fill_rect (s.tile_x +ℤ pos x) (s.tile_y +ℤ pos y) (pos w) (pos h) color s

unfoldable pub finish_tile : Display → Option Display
finish_tile s =
    if s.prefer_js
    then (do tile ← s.tile; some (draw (put tile (s.tile_x -ℤ s.view.x) (s.tile_y -ℤ s.view.y)) s))
    else some s

-- An action of the queue; an image must have loaded.
unfoldable pub waits : (ℕ → Bool) → Action → Bool
waits loaded (img n x y) = not (loaded n)
waits loaded _ = false

unfoldable pub perform : Action → Display → Option Display
unfolding copy_image fill_rect blit_image blit_rgb_image draw_image
perform (copy old_x old_y x y w h) s = some (copy_image old_x old_y x y w h s)
perform (fill x y w h color) s = fill_rect x y w h color s
perform (blit x y w h arr) s = blit_image x y w h arr 0 s
perform (blit_rgb x y w h arr) s = blit_rgb_image x y w h arr 0 s
perform (img n x y) s = some (draw_image n x y s)

-- The loop of `_scan_renderQ`; false if an action throws, which then stays in the queue.
unfoldable pub scan_loop : (ℕ → Bool) → List Action → Display → Bool × Display
unfolding waits perform
scan_loop loaded [] s = (true, record s { render_q = [] })
scan_loop loaded (a ∷ q) s = elim (waits loaded a) [
  | true ↦ (true, record s { render_q = a ∷ q })
  | false ↦ elim (perform a s) [
    | none ↦ (false, record s { render_q = a ∷ q })
    | some s' ↦ scan_loop loaded q s'
  ]
]

abbrev pub is_empty : List Action → Bool
is_empty [] = true
is_empty (a ∷ q) = false

-- What is left waits for the next frame.
unfoldable pub after_scan : Bool × Display → Display
after_scan (done, s) =
    if done && not (is_empty s.render_q) then record s { frames = s.frames + 1 } else s

unfoldable pub scan_render_q : (ℕ → Bool) → Display → Display
unfolding scan_loop after_scan
scan_render_q loaded s = after_scan (scan_loop loaded s.render_q s)

-- `renderQ_push`
unfoldable pub render_q_push : (ℕ → Bool) → Action → Display → Display
unfolding scan_render_q
render_q_push loaded action s =
    let s' : Display = record s { render_q = s.render_q ++ action ∷ [] } in
    if length s'.render_q == 1 then scan_render_q loaded s' else s'

-- A frame of the browser calls one of the callbacks that wait.
unfoldable pub on_frame : (ℕ → Bool) → Display → Display
unfolding scan_render_q
on_frame loaded s =
    if s.frames == 0 then s else scan_render_q loaded (record s { frames = s.frames - 1 })

-- `clear`, which forgets what waits.
unfoldable pub clear : Display → Display
unfolding resize blit_string_image
clear s =
    let s' : Display = elim s.logo [
      | some (w, h) ↦ blit_string_image (pos 0) (pos 0) (resize w h s)
      | none ↦ let t = resize (pos 240) (pos 20) s in draw (cleared t.view.w t.view.h) t
    ] in
    record s' { render_q = [] }
