-- ===== src/Display/Render/Drawing.antt =====
-- What a scan of the queue of statics/include/display.js draws.
use routercenter_old.Prelude.{
  ℕ, ◌*◌, ◌≡◌, ◌<◌, refl, sym, ap, ◌∙◌, Bool, true, false, ◌||◌, ◌⊎◌, inl, inr, Bool-cases, some,
  List, [], ◌∷◌, ◌++◌, map, append_assoc, append-nil, ◌==◌, arith,
}
use routercenter_old.Prelude.All.{All}
use routercenter_old.Prelude.Int.{◌-ℤ◌}
use routercenter_old.Display.{
  View, Draw, filled, copied, put, drawn, Action, copy, fill, blit, blit_rgb, img, Display, draw,
}
use routercenter_old.Display.Style.{set_style, whole, RightCopy, style_set, RightCopy-set_style}
use routercenter_old.Display.Render.{
  style_of, set_fill_color, bgr_of, fill_rect, copy_image, draw_image, bgrx, rgb, put_image,
  blit_image, blit_rgb_image, waits, perform, scan_loop, is_empty, after_scan, scan_render_q,
}

-- What the canvas is to get for an action, in true colour.
unfoldable pub drawing : View → Action → Draw
drawing vp (copy old_x old_y x y w h) =
    copied (old_x -ℤ vp.x) (old_y -ℤ vp.y) w h (x -ℤ vp.x) (y -ℤ vp.y)
drawing vp (fill x y w h color) = filled (style_of color) (x -ℤ vp.x) (y -ℤ vp.y) w h
drawing vp (blit x y w h arr) =
    put (record { width = w; pixels = bgrx (w * h) 0 arr }) (x -ℤ vp.x) (y -ℤ vp.y)
drawing vp (blit_rgb x y w h arr) =
    put (record { width = w; pixels = rgb (w * h) 0 arr }) (x -ℤ vp.x) (y -ℤ vp.y)
drawing vp (img n x y) = drawn n (x -ℤ vp.x) (y -ℤ vp.y)

-- Images of pixels have a pixel, and colours a blue, a green and a red.
abbrev pub Drawable : Action → Type 0
Drawable (fill x y w h color) = whole (style_of color) ≡ true
Drawable (blit x y w h arr) = (w == 0 || h == 0) ≡ false
Drawable (blit_rgb x y w h arr) = (w == 0 || h == 0) ≡ false
Drawable _ = Unit

-- In true colour, and with a right copy of the canvas's style, if any.
abbrev pub Renders : Display → Type 0
Renders s = (s.true_color ≡ true) × RightCopy s

-- The state with the style that an action sets.
unfoldable pub restyled : Action → Display → Display
unfolding set_style
restyled (fill x y w h color) s = set_style (style_of color) s
restyled _ s = s

restyled_keeps :
    (a : Action) (s : Display)
    → ((restyled a s).view ≡ s.view)
      × (((restyled a s).draws ≡ s.draws) × ((restyled a s).true_color ≡ s.true_color))
unfolding restyled set_style
restyled_keeps (copy old_x old_y x y w h) s = (refl, (refl, refl))
restyled_keeps (fill x y w h color) s = (refl, (refl, refl))
restyled_keeps (blit x y w h arr) s = (refl, (refl, refl))
restyled_keeps (blit_rgb x y w h arr) s = (refl, (refl, refl))
restyled_keeps (img n x y) s = (refl, (refl, refl))

pub restyled-Renders : (a : Action) (s : Display) → Drawable a → Renders s → Renders (restyled a s)
unfolding restyled
restyled-Renders (copy old_x old_y x y w h) s p t = t
restyled-Renders (fill x y w h color) s p t = (
  (restyled_keeps (fill x y w h color) s).1.1 ∙ t.0,
  RightCopy-set_style (style_of color) s p t.1,
)
restyled-Renders (blit x y w h arr) s p t = t
restyled-Renders (blit_rgb x y w h arr) s p t = t
restyled-Renders (img n x y) s p t = t

pub perform-drawing :
    (a : Action) (s : Display)
    → Drawable a
    → Renders s
    → perform a s ≡ some (draw (drawing s.view a) (restyled a s))
unfolding perform drawing copy_image fill_rect set_fill_color bgr_of blit_image blit_rgb_image
    put_image draw_image restyled
perform-drawing (copy old_x old_y x y w h) s p t = refl
perform-drawing (fill x y w h color) s p t = rw (t.0, style_set (style_of color) s p t.1) refl
perform-drawing (blit x y w h arr) s p t = rw (t.0, p)
perform-drawing (blit_rgb x y w h arr) s p t = rw (t.0, p)
perform-drawing (img n x y) s p t = refl

-- Since the canvas had got `before` some of the actions `due` were drawn, in order; the others wait, and
-- a callback with them.
pub record Draws (vp : View) (before : List Draw) (t : Display) (due : List Action) : Type 0 where
  pub drawn_now : List Action
  pub in_order : due ≡ drawn_now ++ t.render_q
  pub shown : t.draws ≡ before ++ map (drawing vp) drawn_now
  pub same_view : t.view ≡ vp
  pub still_renders : Renders t
  pub waited_for : (t.render_q ≡ []) ⊎ (0 < t.frames)

-- The same, before the callback is asked for.
record Scans (vp : View) (before : List Draw) (t : Display) (q : List Action) : Type 0 where
  drawn_now : List Action
  in_order : q ≡ drawn_now ++ t.render_q
  shown : t.draws ≡ before ++ map (drawing vp) drawn_now
  same_view : t.view ≡ vp
  still_renders : Renders t

-- An action that is drawn before the others.
one_more :
    {vp vp' : View} {before before' : List Draw} {t : Display} (a : Action) (q : List Action)
    → vp' ≡ vp
    → before' ≡ before ++ drawing vp a ∷ []
    → Scans vp' before' t q
    → Scans vp before t (a ∷ q)
one_more {vp} {vp'} {before} {before'} {t} a q e k h = record {
  drawn_now = a ∷ h.drawn_now;
  in_order = ap (λ z. a ∷ z) h.in_order;
  shown =
      h.shown
      ∙ ap (λ z. before' ++ map (drawing z) h.drawn_now) e
      ∙ ap (λ z. z ++ map (drawing vp) h.drawn_now) k
      ∙ append_assoc before (drawing vp a ∷ []) (map (drawing vp) h.drawn_now);
  same_view = h.same_view ∙ e;
  still_renders = h.still_renders;
}

scan_loop-Scans :
    (loaded : ℕ → Bool) (q : List Action) (s : Display)
    → All Drawable q
    → Renders s
    → ((scan_loop loaded q s).0 ≡ true) × Scans s.view s.draws (scan_loop loaded q s).1 q
unfolding scan_loop
scan_loop-Scans loaded [] s p t = (
  refl,
  record {
    drawn_now = [];
    in_order = refl;
    shown = sym (append-nil s.draws);
    same_view = refl;
    still_renders = t;
  },
)
scan_loop-Scans loaded (a ∷ q) s p t = elim (Bool-cases (waits loaded a)) [
  | inl w ↦
      rw (w, scan_loop)
        (
          refl,
          record {
            drawn_now = [];
            in_order = refl;
            shown = sym (append-nil s.draws);
            same_view = refl;
            still_renders = t;
          },
        )
  | inr w ↦
      let next = draw (drawing s.view a) (restyled a s) in
      let (view, (draws, colors)) = restyled_keeps a s in
      let (k, h) = scan_loop-Scans loaded q next p.1 (restyled-Renders a s p.0 t) in
      rw (w, perform-drawing a s p.0 t, scan_loop)
        (k, one_more a q view (ap (λ z. z ++ drawing s.view a ∷ []) draws) h)
]

is_empty-cases : (q : List Action) → ((q ≡ []) × (is_empty q ≡ true)) ⊎ (is_empty q ≡ false)
is_empty-cases [] = inl (refl, refl)
is_empty-cases (a ∷ q) = inr refl

after_scan-Draws :
    (vp : View) (before : List Draw) (out : Bool × Display) (q : List Action)
    → out.0 ≡ true
    → Scans vp before out.1 q
    → Draws vp before (after_scan out) q
unfolding after_scan
after_scan-Draws vp before (done, t) q k h = elim (is_empty-cases t.render_q) [
  | inl (e, e') ↦
      rw (k, e')
        (record {
          drawn_now = h.drawn_now;
          in_order = h.in_order;
          shown = h.shown;
          same_view = h.same_view;
          still_renders = h.still_renders;
          waited_for = inl e;
        })
  | inr e' ↦
      rw (k, e')
        (record {
          drawn_now = h.drawn_now;
          in_order = h.in_order;
          shown = h.shown;
          same_view = h.same_view;
          still_renders = h.still_renders;
          waited_for = inr (omega arith);
        })
]

-- A scan, from any state that renders in true colour.
pub scan_render_q-Draws :
    (loaded : ℕ → Bool) (s : Display)
    → All Drawable s.render_q
    → Renders s
    → Draws s.view s.draws (scan_render_q loaded s) s.render_q
unfolding scan_render_q
scan_render_q-Draws loaded s p t =
    let (k, h) = scan_loop-Scans loaded s.render_q s p t in
    after_scan-Draws s.view s.draws (scan_loop loaded s.render_q s) s.render_q k h
