-- ===== src/Display/Bounds.antt =====
-- Where the viewport of statics/include/display.js may be moved to.
use routercenter_old.Prelude.{
  ◌≡◌, refl, Bool, true, false, ◌&&◌, inl, inr, Bool-cases, if◌then◌else◌, arith,
}
use routercenter_old.Prelude.Int.{
  ℤ, pos, negsuc, ◌+ℤ◌, ◌-ℤ◌, ◌≤ℤ◌, ◌<ℤ◌, eqb_ℤ, ltb_ℤ, leb_ℤ, ltb_ℤ-cases, leb_ℤ-cases, int_laws,
}
use routercenter_old.Display.{View, Display, last, move_by, clamp_x, clamp_y, viewport_change_pos}

-- The viewport is no larger than the screen, and lies on it.
pub record OnScreen (s : Display) : Type 0 where
  pub narrow : s.view.w ≤ℤ s.fb_width
  pub low : s.view.h ≤ℤ s.fb_height
  pub left : pos 0 ≤ℤ s.view.x
  pub right : last s.view.x s.view.w <ℤ s.fb_width
  pub top : pos 0 ≤ℤ s.view.y
  pub bottom : last s.view.y s.view.h <ℤ s.fb_height

-- An offset after which a stretch of `w` from `x` on lies between 0 and `size`.
abbrev Fits : ℤ → ℤ → ℤ → ℤ → Type 0
Fits x w size d = (pos 0 ≤ℤ x +ℤ d) × (last (x +ℤ d) w <ℤ size)

-- Back from the end, if it is passed.
back-Fits :
    (x w size d : ℤ)
    → w ≤ℤ size
    → pos 0 ≤ℤ x +ℤ d
    → Fits x w size
        (if leb_ℤ size (last x w +ℤ d) then d -ℤ (last x w +ℤ d -ℤ size +ℤ pos 1) else d)
back-Fits x w size d n h = elim (leb_ℤ-cases size (last x w +ℤ d)) [
  | inl (e, l) ↦ rw e (omega int_laws)
  | inr (e, l) ↦ rw e (omega int_laws)
]

held_left : (x d : ℤ) → pos 0 ≤ℤ x +ℤ (if ltb_ℤ (x +ℤ d) (pos 0) then pos 0 -ℤ x else d)
held_left x d = elim (ltb_ℤ-cases (x +ℤ d) (pos 0)) [
  | inl (e, l) ↦ rw e (omega int_laws)
  | inr (e, l) ↦ rw e (omega int_laws)
]

held_left_back :
    (x d : ℤ)
    → pos 0 ≤ℤ x
    → pos 0 ≤ℤ x +ℤ (if ltb_ℤ d (pos 0) && ltb_ℤ (x +ℤ d) (pos 0) then pos 0 -ℤ x else d)
held_left_back x d h = elim (ltb_ℤ-cases d (pos 0)) [
  | inl (e, l) ↦ rw e (held_left x d)
  | inr (e, l) ↦ rw e (omega int_laws)
]

clamp_x-Fits :
    (vp : View) (fb_width delta : ℤ)
    → vp.w ≤ℤ fb_width
    → pos 0 ≤ℤ vp.x
    → Fits vp.x vp.w fb_width (clamp_x vp fb_width delta)
unfolding clamp_x
clamp_x-Fits vp fb delta n h =
    back-Fits vp.x vp.w fb
      (if ltb_ℤ delta (pos 0) && ltb_ℤ (vp.x +ℤ delta) (pos 0) then pos 0 -ℤ vp.x else delta) n
      (held_left_back vp.x delta h)

clamp_y-Fits :
    (vp : View) (fb_height delta : ℤ)
    → vp.h ≤ℤ fb_height
    → Fits vp.y vp.h fb_height (clamp_y vp fb_height delta)
unfolding clamp_y
clamp_y-Fits vp fb delta n =
    back-Fits vp.y vp.h fb (if ltb_ℤ (vp.y +ℤ delta) (pos 0) then pos 0 -ℤ vp.y else delta) n
      (held_left vp.y delta)

is_zero : (d : ℤ) → eqb_ℤ d (pos 0) ≡ true → d ≡ pos 0
is_zero (pos n) e = ground (arith, e)
is_zero (negsuc n) e = absurd (ground (arith, e))

both : (a b : Bool) → (a && b) ≡ true → (a ≡ true) × (b ≡ true)
both true b e = (refl, e)
both false b e = cc

fits_still : (x w size d : ℤ) → d ≡ pos 0 → Fits x w size d → (pos 0 ≤ℤ x) × (last x w <ℤ size)
fits_still x w size d e f = let f' = rw e at f in omega (int_laws, f')

move_by-OnScreen :
    (dx dy : ℤ) (s : Display)
    → s.view.w ≤ℤ s.fb_width
    → s.view.h ≤ℤ s.fb_height
    → Fits s.view.x s.view.w s.fb_width dx
    → Fits s.view.y s.view.h s.fb_height dy
    → OnScreen (move_by dx dy s)
unfolding move_by
move_by-OnScreen dx dy s n l fx fy = elim (Bool-cases (eqb_ℤ dx (pos 0) && eqb_ℤ dy (pos 0))) [
  | inl e ↦
      let (ex, ey) = both (eqb_ℤ dx (pos 0)) (eqb_ℤ dy (pos 0)) e in
      let gx = fits_still s.view.x s.view.w s.fb_width dx (is_zero dx ex) fx in
      let gy = fits_still s.view.y s.view.h s.fb_height dy (is_zero dy ey) fy in
      rw e (record { narrow = n; low = l; left = gx.0; right = gx.1; top = gy.0; bottom = gy.1 })
  | inr e ↦
      rw e (record { narrow = n; low = l; left = fx.0; right = fx.1; top = fy.0; bottom = fy.1 })
]

-- A viewport that is no larger than the screen, and does not begin left of it, lies on the screen after
-- any change of its position, however far it should go.
pub viewport_change_pos-OnScreen :
    (delta_x delta_y : ℤ) (s : Display)
    → s.view.w ≤ℤ s.fb_width
    → s.view.h ≤ℤ s.fb_height
    → pos 0 ≤ℤ s.view.x
    → OnScreen (viewport_change_pos delta_x delta_y s)
unfolding viewport_change_pos
viewport_change_pos-OnScreen delta_x delta_y s n l h =
    let dx = if s.viewport then delta_x else pos 0 -ℤ s.view.w in
    let dy = if s.viewport then delta_y else pos 0 -ℤ s.view.h in
    move_by-OnScreen (clamp_x s.view s.fb_width dx) (clamp_y s.view s.fb_height dy) s n l
      (clamp_x-Fits s.view s.fb_width dx n h) (clamp_y-Fits s.view s.fb_height dy l)
