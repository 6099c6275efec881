-- ===== src/Display/Tests.antt =====
-- Runs of the display of statics/include/display.js.
use routercenter_old.Prelude.{
  ℕ, ◌≡◌, refl, ◌↔◌, inl, true, false, Option, none, some, List, [], ◌∷◌, ◌++◌, map, arith,
}
use routercenter_old.Prelude.All.{All}
use routercenter_old.Prelude.Int.{pos, negsuc, ◌+ℤ◌, ◌-ℤ◌}
use routercenter_old.Display.{
  View, fill, blit, img, Display, viewport_change_pos, get_clean_dirty_reset,
}
use routercenter_old.Display.Cover.{InView, InClean, Within, Answered, get_clean_dirty_reset_lem}
use routercenter_old.Display.Fresh.{Move, by, to_size, moved_all, views, clean_iff}
use routercenter_old.Display.Bounds.{OnScreen, viewport_change_pos-OnScreen}
use routercenter_old.Display.Render.{waits, on_frame}
use routercenter_old.Display.Style.{RightCopy}
use routercenter_old.Display.Cursor.{cell, cursor_file}
use routercenter_old.Display.Cursor.Pixels.{Holds, cursor_file-Holds}
use routercenter_old.Display.Cursor.Size.{CursorFile, cursor_file-CursorFile}
use routercenter_old.Display.Render.Drawing.{drawing, Draws}
use routercenter_old.Display.Render.Order.{Turn, pushed, frame, turns, pushes, turns-Draws}
use routercenter_old.Display.Render.Drained.{on_frame-turns}
use routercenter_old.Display.Render.Tiles.{Part, Tiled, tile_drawn-Tiled}

-- A screen of 100 by 80 of which 40 by 30 show, all of it clean.
abbrev shown : Display
shown = record {
  fb_width = pos 100;
  fb_height = pos 80;
  max_width = pos 0;
  max_height = pos 0;
  view = record { x = pos 10; y = pos 20; w = pos 40; h = pos 30 };
  clean = record { x1 = pos 12; y1 = pos 20; x2 = pos 49; y2 = pos 49 };
  viewport = true;
  true_color = true;
  colour_map = [];
  prefer_js = true;
  previous_style = none;
  fill_style = some 0 ∷ some 0 ∷ some 0 ∷ [];
  tile = none;
  logo = none;
  tile_x = pos 0;
  tile_y = pos 0;
  canvas_width = pos 40;
  canvas_height = pos 30;
  render_q = [];
  frames = 0;
  draws = [];
}

shown-Within : Within shown.view shown.clean
unfolding ◌-ℤ◌ ◌+ℤ◌
shown-Within = record {
  left = omega arith;
  right = omega arith;
  top = omega arith;
  bottom = omega arith;
}

get_clean_dirty_reset_lem_example :
    InView shown.view (pos 11) (pos 20) ↔ Answered shown (pos 11) (pos 20)
get_clean_dirty_reset_lem_example = get_clean_dirty_reset_lem shown (pos 11) (pos 20) shown-Within

abbrev moves : List Move
moves = by (pos 70) (negsuc 4) ∷ to_size (some (pos 20)) none ∷ []

clean_iff_example :
    InClean (moved_all moves (get_clean_dirty_reset shown).1).clean (pos 62) (pos 25) ↔ (
      InView shown.view (pos 62) (pos 25)
      × All
          (λ (vp : View). InView vp (pos 62) (pos 25))
          (views moves (get_clean_dirty_reset shown).1))
clean_iff_example = clean_iff moves shown (pos 62) (pos 25)

viewport_change_pos-OnScreen_example : OnScreen (viewport_change_pos (pos 500) (negsuc 90) shown)
viewport_change_pos-OnScreen_example =
    viewport_change_pos-OnScreen (pos 500) (negsuc 90) shown (omega arith) (omega arith)
      (omega arith)

abbrev gray : List (Option ℕ)
gray = some 128 ∷ some 128 ∷ some 128 ∷ some 0 ∷ []

-- An image that has not loaded holds back what is pushed after it.
abbrev happened : List Turn
happened =
    pushed (λ n. false) (fill (pos 10) (pos 20) (pos 4) (pos 4) gray)
    ∷ pushed (λ n. false) (img 7 (pos 12) (pos 22))
    ∷ pushed (λ n. false) (blit (pos 11) (pos 21) 1 1 gray)
    ∷ frame (λ n. false)
    ∷ []

no_copy : RightCopy shown
no_copy style e = cc

turns-Draws_example : Draws shown.view [] (turns happened shown) (pushes happened)
unfolding pushes
turns-Draws_example = turns-Draws happened shown (refl, (tt, (refl, tt))) (refl, no_copy) (inl refl)

on_frame-turns_example :
    ((on_frame (λ n. true) (turns happened shown)).render_q ≡ [])
    × ((on_frame (λ n. true) (turns happened shown)).draws
        ≡ map (drawing shown.view) (pushes happened))
unfolding pushes waits
on_frame-turns_example =
    on_frame-turns happened (λ n. true) shown (refl, (tt, (refl, tt))) (refl, no_copy) (inl refl)
      (refl, (refl, (refl, tt)))

abbrev parts : List Part
parts =
    record { x = 1; y = 0; w = 2; h = 2; color = gray }
    ∷ record { x = 2; y = 1; w = 2; h = 1; color = some 1 ∷ some 2 ∷ some 3 ∷ [] }
    ∷ []

tile_drawn-Tiled_example : Tiled (pos 32) (pos 48) 4 3 gray parts shown
tile_drawn-Tiled_example =
    tile_drawn-Tiled (pos 32) (pos 48) 4 3 gray parts shown refl refl refl refl
      (omega arith, (omega arith, tt))

-- An icon of 10 by 6 with two pixels.
cursor_file-CursorFile_example :
    CursorFile 10 (cursor_file (gray ++ gray) (some 192 ∷ []) 1 2 10 6 none)
cursor_file-CursorFile_example =
    cursor_file-CursorFile (gray ++ gray) (some 192 ∷ []) 1 2 10 6 (omega arith)

-- The second pixel, of which the mask is set.
cursor_file-Holds_example :
    Holds
      (cursor_file (gray ++ gray) (some 192 ∷ []) 1 2 10 6 none)
      426
      (some 128 ∷ some 128 ∷ some 128 ∷ some 255 ∷ [])
unfolding cell
cursor_file-Holds_example =
    cursor_file-Holds (gray ++ gray) (some 192 ∷ []) 1 2 10 6 1 0
      (some 128 ∷ some 128 ∷ some 128 ∷ some 255 ∷ []) (omega arith) (omega arith) refl
