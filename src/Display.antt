-- ===== src/Display.antt =====
-- statics/include/display.js: the part of the screen that shows, what of it is up to date, and what is
-- drawn on the canvas. The canvas is the list of the calls that it gets; scaling is left out.
pub mod Cover
pub mod Fresh
pub mod Bounds
pub mod Style
pub mod Render
pub mod Cursor
mod Tests
use routercenter_old.Prelude.{
  ℕ, zero, suc, ◌+◌, ◌-◌, ◌*◌, Bool, true, false, not, ◌&&◌, ◌||◌, Option, none, some, List, [],
  ◌∷◌, ◌++◌, length, drop, set, get_or, replicate, ltb, ◌==◌, if◌then◌else◌,
}
use routercenter_old.Prelude.Array.{read}
use routercenter_old.Prelude.Int.{ℤ, pos, negsuc, ◌+ℤ◌, ◌-ℤ◌, ltb_ℤ, leb_ℤ, eqb_ℤ}
use routercenter_old.Rfb.Messages.{Box, CleanDirty}

-- `_viewportLoc`
pub record View : Type 0 where
  pub x : ℤ
  pub y : ℤ
  pub w : ℤ
  pub h : ℤ

-- `_cleanRect`, with its last column and row
pub record Clean : Type 0 where
  pub x1 : ℤ
  pub y1 : ℤ
  pub x2 : ℤ
  pub y2 : ℤ

-- A pixel of an image: red, green, blue and alpha.
pub record Pixel : Type 0 where
  pub red : ℕ
  pub green : ℕ
  pub blue : ℕ
  pub alpha : ℕ

-- An image of the canvas: its width, and its pixels row by row, four bytes each.
pub record Image : Type 0 where
  pub width : ℕ
  pub pixels : List Pixel

-- The calls of the canvas: `copied` copies a part of the canvas, `drawn` draws an image by its number,
-- `awaited` draws one as soon as it has loaded.
pub data Draw : Type 0 where
  filled : List (Option ℕ) → ℤ → ℤ → ℤ → ℤ → Draw
  whitened : ℤ → ℤ → ℤ → ℤ → Draw
  copied : ℤ → ℤ → ℤ → ℤ → ℤ → ℤ → Draw
  put : Image → ℤ → ℤ → Draw
  drawn : ℕ → ℤ → ℤ → Draw
  cleared awaited : ℤ → ℤ → Draw
  sized : ℤ → ℤ → Draw

-- The actions that wait to be rendered.
pub data Action : Type 0 where
  copy : ℤ → ℤ → ℤ → ℤ → ℤ → ℤ → Action
  fill : ℤ → ℤ → ℤ → ℤ → List (Option ℕ) → Action
  blit : ℤ → ℤ → ℕ → ℕ → List (Option ℕ) → Action
  blit_rgb : ℤ → ℤ → ℕ → ℕ → List (Option ℕ) → Action
  img : ℕ → ℤ → ℤ → Action

-- `previous_style` is `_prevDrawStyle`, none if it is the empty text, and `fill_style` the one that the
-- canvas fills in: a red, a green and a blue. `tile` is null at first; `frames` counts the callbacks that wait for the next frame of the browser.
pub record Display : Type 0 where
  pub fb_width : ℤ
  pub fb_height : ℤ
  pub max_width : ℤ
  pub max_height : ℤ
  pub view : View
  pub clean : Clean
  pub viewport : Bool
  pub true_color : Bool
  pub colour_map : List (List (Option ℕ))
  pub prefer_js : Bool
  pub previous_style : Option (List (Option ℕ))
  pub fill_style : List (Option ℕ)
  pub tile : Option Image
  pub logo : Option (ℤ × ℤ)
  pub tile_x : ℤ
  pub tile_y : ℤ
  pub canvas_width : ℤ
  pub canvas_height : ℤ
  pub render_q : List Action
  pub frames : ℕ
  pub draws : List Draw

abbrev pub draw : Draw → Display → Display
draw d s = record s { draws = s.draws ++ d ∷ [] }

abbrev pub last : ℤ → ℤ → ℤ
last x w = x +ℤ w -ℤ pos 1

-- The change of the column, kept within the screen.
unfoldable pub clamp_x : View → ℤ → ℤ → ℤ
clamp_x vp fb_width delta =
    let d = if ltb_ℤ delta (pos 0) && ltb_ℤ (vp.x +ℤ delta) (pos 0) then pos 0 -ℤ vp.x else delta in
    let end = last vp.x vp.w +ℤ d in
    if leb_ℤ fb_width end then d -ℤ (end -ℤ fb_width +ℤ pos 1) else d

unfoldable pub clamp_y : View → ℤ → ℤ → ℤ
clamp_y vp fb_height delta =
    let d = if ltb_ℤ (vp.y +ℤ delta) (pos 0) then pos 0 -ℤ vp.y else delta in
    let end = last vp.y vp.h +ℤ d in
    if leb_ℤ fb_height end then d -ℤ (end -ℤ fb_height +ℤ pos 1) else d

-- What shows no longer is not up to date.
unfoldable pub clip : View → Clean → Clean
clip vp cr = record {
  x1 = if ltb_ℤ cr.x1 vp.x then vp.x else cr.x1;
  y1 = if ltb_ℤ cr.y1 vp.y then vp.y else cr.y1;
  x2 = if ltb_ℤ (last vp.x vp.w) cr.x2 then last vp.x vp.w else cr.x2;
  y2 = if ltb_ℤ (last vp.y vp.h) cr.y2 then last vp.y vp.h else cr.y2;
}

-- The picture moves the other way, and the part that comes into view is white. The style of the canvas is
-- put back after it.
unfoldable pub scroll_x : View → ℤ → List Draw
scroll_x vp d =
    if eqb_ℤ d (pos 0)
    then []
    else copied (pos 0) (pos 0) vp.w vp.h (pos 0 -ℤ d) (pos 0)
      ∷ (if ltb_ℤ d (pos 0)
          then whitened (pos 0) (pos 0) (pos 0 -ℤ d) vp.h
          else whitened (vp.w -ℤ d) (pos 0) d vp.h)
      ∷ []

unfoldable pub scroll_y : View → ℤ → List Draw
scroll_y vp d =
    if eqb_ℤ d (pos 0)
    then []
    else copied (pos 0) (pos 0) vp.w vp.h (pos 0) (pos 0 -ℤ d)
      ∷ (if ltb_ℤ d (pos 0)
          then whitened (pos 0) (pos 0) vp.w (pos 0 -ℤ d)
          else whitened (pos 0) (vp.h -ℤ d) vp.w d)
      ∷ []

-- `viewportChangePos`: without a viewport it goes back to the origin.
unfoldable pub move_by : ℤ → ℤ → Display → Display
unfolding clip scroll_x scroll_y
move_by dx dy s =
    if eqb_ℤ dx (pos 0) && eqb_ℤ dy (pos 0)
    then s
    else let vp : View = record s.view { x = s.view.x +ℤ dx; y = s.view.y +ℤ dy } in
      record s {
        view = vp;
        clean = clip vp s.clean;
        draws = s.draws ++ (scroll_x vp dx ++ scroll_y vp dy);
      }

unfoldable pub viewport_change_pos : ℤ → ℤ → Display → Display
unfolding clamp_x clamp_y move_by
viewport_change_pos delta_x delta_y s =
    let dx = if s.viewport then delta_x else pos 0 -ℤ s.view.w in
    let dy = if s.viewport then delta_y else pos 0 -ℤ s.view.h in
    move_by (clamp_x s.view s.fb_width dx) (clamp_y s.view s.fb_height dy) s

-- A size is limited if the viewport is on and the limit is not 0.
unfoldable pub limited : Bool → ℤ → ℤ → ℤ
limited viewport most size =
    if viewport && (not (eqb_ℤ most (pos 0)) && ltb_ℤ most size) then most else size

unfoldable pub shrink : View → ℤ → ℤ → Clean → Clean
shrink vp width height cr = record cr {
  x2 = if ltb_ℤ width vp.w && ltb_ℤ (last vp.x width) cr.x2 then last vp.x width else cr.x2;
  y2 = if ltb_ℤ height vp.h && ltb_ℤ (last vp.y height) cr.y2 then last vp.y height else cr.y2;
}

-- The canvas gets another size, and keeps what it showed, but it fills in black again.
unfoldable pub size_canvas : ℤ → ℤ → Display → Display
size_canvas width height s =
    if eqb_ℤ s.canvas_width width && eqb_ℤ s.canvas_height height
    then s
    else record (draw (sized width height) s) {
      canvas_width = width;
      canvas_height = height;
      fill_style = some 0 ∷ some 0 ∷ some 0 ∷ [];
    }

-- `viewportChangeSize(width, height)`
unfoldable pub change_size : ℤ → ℤ → Display → Display
unfolding limited shrink size_canvas
change_size width height s =
    if eqb_ℤ s.view.w width && eqb_ℤ s.view.h height
    then s
    else let w = limited s.viewport s.max_width width in
      let h = limited s.viewport s.max_height height in
      size_canvas w h
        (record s { clean = shrink s.view w h s.clean; view = record s.view { w = w; h = h } })

-- With no size, or only one, it is the whole screen.
unfoldable pub viewport_change_size : Option ℤ → Option ℤ → Display → Display
unfolding change_size
viewport_change_size (some width) (some height) s = change_size width height s
viewport_change_size _ _ s = change_size s.fb_width s.fb_height s

-- `resize`
unfoldable pub resize : ℤ → ℤ → Display → Display
unfolding viewport_change_size
resize width height s =
    viewport_change_size none none
      (record s { fb_width = width; fb_height = height; previous_style = none })

-- Columns and rows from the first to the last.
abbrev pub box : ℤ → ℤ → ℤ → ℤ → Box
box x y w h = record { x = some x; y = some y; w = some w; h = some h }

unfoldable pub clean_box : Clean → Box
clean_box cr = box cr.x1 cr.y1 (cr.x2 -ℤ cr.x1 +ℤ pos 1) (cr.y2 -ℤ cr.y1 +ℤ pos 1)

-- A single column or row counts as nothing.
abbrev pub is_stale : Clean → Bool
is_stale cr = leb_ℤ cr.x2 cr.x1 || leb_ℤ cr.y2 cr.y1

-- The box on the left is a column wider than it need be.
abbrev pub left_box : View → Clean → Box
left_box vp cr = box vp.x vp.y (cr.x1 -ℤ vp.x +ℤ pos 1) vp.h

abbrev pub right_box : View → Clean → Box
right_box vp cr = box (cr.x2 +ℤ pos 1) vp.y (last vp.x vp.w -ℤ cr.x2) vp.h

abbrev pub top_box : View → Clean → Box
top_box vp cr = box cr.x1 vp.y (cr.x2 -ℤ cr.x1 +ℤ pos 1) (cr.y1 -ℤ vp.y)

abbrev pub bottom_box : View → Clean → Box
bottom_box vp cr = box cr.x1 (cr.y2 +ℤ pos 1) (cr.x2 -ℤ cr.x1 +ℤ pos 1) (last vp.y vp.h -ℤ cr.y2)

abbrev pub only_if : Bool → Box → List Box
only_if test b = if test then b ∷ [] else []

abbrev pub side_boxes : View → Clean → List Box
side_boxes vp cr =
    only_if (ltb_ℤ vp.x cr.x1) (left_box vp cr)
    ++ (only_if (ltb_ℤ cr.x2 (last vp.x vp.w)) (right_box vp cr)
        ++ (only_if (ltb_ℤ vp.y cr.y1) (top_box vp cr)
            ++ only_if (ltb_ℤ cr.y2 (last vp.y vp.h)) (bottom_box vp cr)))

unfoldable pub dirty_boxes : View → Clean → List Box
dirty_boxes vp cr = if is_stale cr then box vp.x vp.y vp.w vp.h ∷ [] else side_boxes vp cr

unfoldable pub all_clean : View → Clean
all_clean vp = record { x1 = vp.x; y1 = vp.y; x2 = last vp.x vp.w; y2 = last vp.y vp.h }

-- `getCleanDirtyReset`
unfoldable pub get_clean_dirty_reset : Display → CleanDirty × Display
unfolding clean_box dirty_boxes all_clean
get_clean_dirty_reset s = (
  record { clean_box = clean_box s.clean; dirty_boxes = dirty_boxes s.view s.clean },
  record s { clean = all_clean s.view },
)

-- `absX` and `absY`
unfoldable pub abs_x : ℤ → Display → ℤ
abs_x x s = x +ℤ s.view.x

unfoldable pub abs_y : ℤ → Display → ℤ
abs_y y s = y +ℤ s.view.y

-- `clippingDisplay`
unfoldable pub clipping_display : Display → Bool
clipping_display s =
    let limited_vp = not (eqb_ℤ s.max_width (pos 0)) && not (eqb_ℤ s.max_height (pos 0)) in
    let clipping = limited_vp && (ltb_ℤ s.max_width s.view.w || ltb_ℤ s.max_height s.view.h) in
    (ltb_ℤ s.view.w s.fb_width || ltb_ℤ s.view.h s.fb_height) || (limited_vp && clipping)
