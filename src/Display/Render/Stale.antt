-- ===== src/Display/Render/Stale.antt =====
-- A fill after the canvas of statics/include/display.js has got another size.
use routercenter_old.Prelude.{Option, some, ℕ, List, [], ◌∷◌}
use routercenter_old.Prelude.Int.{ℤ, ◌-ℤ◌}
use routercenter_old.Display.{View, filled, Display, draw}

abbrev pub black : List (Option ℕ)
black = some 0 ∷ some 0 ∷ some 0 ∷ []

abbrev filled_in : ℤ → ℤ → ℤ → ℤ → View → Display → Option Display
filled_in x y w h vp s = some (draw (filled s.fill_style (x -ℤ vp.x) (y -ℤ vp.y) w h) s)
