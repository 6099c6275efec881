-- ===== src/Display/Fresh.antt =====
-- Which points statics/include/display.js takes to be up to date: those that showed all the time since
-- the answer of `getCleanDirtyReset`, when the server was asked for them.
use routercenter_old.Prelude.{
  ◌&&◌, inl, inr, ◌↔◌, Bool-cases, Option, none, some, List, [], ◌∷◌, if◌then◌else◌, arith,
}
use routercenter_old.Prelude.All.{All}
use routercenter_old.Prelude.Int.{ℤ, pos, ◌+ℤ◌, ◌-ℤ◌, ◌≤ℤ◌, eqb_ℤ, ltb_ℤ, ltb_ℤ-cases, int_laws}
use routercenter_old.Display.{
  View, Clean, Display, last, clip, move_by, clamp_x, clamp_y, viewport_change_pos, limited, shrink,
  size_canvas, change_size, viewport_change_size, resize, all_clean, get_clean_dirty_reset,
}
use routercenter_old.Display.Cover.{InView, InClean, Within}

-- What the page and the client of the display do to the part that shows.
pub data Move : Type 0 where
  by : ℤ → ℤ → Move
  to_size : Option ℤ → Option ℤ → Move
  screen : ℤ → ℤ → Move

abbrev pub moved : Move → Display → Display
moved (by dx dy) s = viewport_change_pos dx dy s
moved (to_size w h) s = viewport_change_size w h s
moved (screen w h) s = resize w h s

-- What showed after each of the moves.
unfoldable pub views : List Move → Display → List View
views [] s = []
views (m ∷ ms) s = (moved m s).view ∷ views ms (moved m s)

unfoldable pub moved_all : List Move → Display → Display
moved_all [] s = s
moved_all (m ∷ ms) s = moved_all ms (moved m s)

at_most : (a b p : ℤ) → (p ≤ℤ (if ltb_ℤ a b then a else b)) ↔ ((p ≤ℤ b) × (p ≤ℤ a))
at_most a b p = elim (ltb_ℤ-cases a b) [
  | inl (e, l) ↦ rw e (λ h. (omega arith, h), λ h. h.1)
  | inr (e, l) ↦ rw e (λ h. (h, omega arith), λ h. h.0)
]

at_least : (a b p : ℤ) → ((if ltb_ℤ a b then b else a) ≤ℤ p) ↔ ((a ≤ℤ p) × (b ≤ℤ p))
at_least a b p = elim (ltb_ℤ-cases a b) [
  | inl (e, l) ↦ rw e (λ h. (omega arith, h), λ h. h.1)
  | inr (e, l) ↦ rw e (λ h. (h, omega arith), λ h. h.0)
]

-- What is up to date stays within what shows, and is what was up to date and still shows.
record Narrows (vp : View) (cr cr' : Clean) : Type 0 where
  within : Within vp cr'
  points : (px py : ℤ) → InClean cr' px py ↔ (InClean cr px py × InView vp px py)

clip-Narrows : (vp : View) (cr : Clean) → Narrows vp cr (clip vp cr)
unfolding clip
clip-Narrows vp cr =
    let left = at_least cr.x1 vp.x in
    let top = at_least cr.y1 vp.y in
    let right = at_most (last vp.x vp.w) cr.x2 in
    let bottom = at_most (last vp.y vp.h) cr.y2 in
    record {
      within = record {
        left = ((left _).0 (omega arith)).1;
        right = ((right _).0 (omega arith)).1;
        top = ((top _).0 (omega arith)).1;
        bottom = ((bottom _).0 (omega arith)).1;
      };
      points = λ px py. (
        λ h.
            let l = (left px).0 h.0 in
            let r = (right px).0 h.1 in
            let t = (top py).0 h.2 in
            let b = (bottom py).0 h.3 in ((l.0, r.0, t.0, b.0), (l.1, r.1, t.1, b.1)),
        λ h. (
          (left px).1 (h.0.0, h.1.0),
          (right px).1 (h.0.1, h.1.1),
          (top py).1 (h.0.2, h.1.2),
          (bottom py).1 (h.0.3, h.1.3),
        ),
      );
    }

-- A size that shrinks cuts off the end.
cut_end :
    (x w w' end p : ℤ)
    → end ≤ℤ last x w
    → (p ≤ℤ (if ltb_ℤ w' w && ltb_ℤ (last x w') end then last x w' else end))
      ↔ ((p ≤ℤ end) × (p ≤ℤ last x w'))
cut_end x w w' end p k = elim (ltb_ℤ-cases (last x w') end) [
  | inl (e, l) ↦ elim (ltb_ℤ-cases w' w) [
    | inl (f, m) ↦ rw (e, f) (λ h. (omega int_laws, h), λ h. h.1)
    | inr (f, m) ↦ absurd (omega int_laws)
  ]
  | inr (e, l) ↦ elim (Bool-cases (ltb_ℤ w' w)) [
    | inl f ↦ rw (e, f) (λ h. (h, omega int_laws), λ h. h.0)
    | inr f ↦ rw f (λ h. (h, omega int_laws), λ h. h.0)
  ]
]

shrink-Narrows :
    (vp : View) (cr : Clean) (w h : ℤ)
    → Within vp cr
    → Narrows (record vp { w = w; h = h }) cr (shrink vp w h cr)
unfolding shrink
shrink-Narrows vp cr w h i =
    let right = λ (p : ℤ). cut_end vp.x vp.w w cr.x2 p i.right in
    let bottom = λ (p : ℤ). cut_end vp.y vp.h h cr.y2 p i.bottom in
    record {
      within = record {
        left = i.left;
        right = ((right _).0 (omega arith)).1;
        top = i.top;
        bottom = ((bottom _).0 (omega arith)).1;
      };
      points = λ px py. (
        λ k.
            let r = (right px).0 k.1 in
            let b = (bottom py).0 k.3 in
            ((k.0, r.0, k.2, b.0), (omega (arith, i.left), r.1, omega (arith, i.top), b.1)),
        λ k. (k.0.0, (right px).1 (k.0.1, k.1.1), k.0.2, (bottom py).1 (k.0.3, k.1.3)),
      );
    }

same-Narrows : (vp : View) (cr : Clean) → Within vp cr → Narrows vp cr cr
same-Narrows vp cr i = record {
  within = i;
  points = λ px py. (λ h. (h, omega (arith, i.left, i.right, i.top, i.bottom)), λ h. h.0);
}

size_canvas-Narrows :
    (w h : ℤ) (cr : Clean) (t : Display)
    → Narrows t.view cr t.clean
    → Narrows (size_canvas w h t).view cr (size_canvas w h t).clean
unfolding size_canvas
size_canvas-Narrows w h cr t n =
    elim (Bool-cases (eqb_ℤ t.canvas_width w && eqb_ℤ t.canvas_height h)) [
      | inl e ↦ rw e n
      | inr e ↦ rw e n
    ]

abbrev Step : Display → Display → Type 0
Step s t = Narrows t.view s.clean t.clean

module _ (s : Display) (i : Within s.view s.clean) where
  move_by-Narrows : (dx dy : ℤ) → Step s (move_by dx dy s)
  unfolding move_by
  move_by-Narrows dx dy = elim (Bool-cases (eqb_ℤ dx (pos 0) && eqb_ℤ dy (pos 0))) [
    | inl e ↦ rw e (same-Narrows s.view s.clean i)
    | inr e ↦ rw e (clip-Narrows (record s.view { x = s.view.x +ℤ dx; y = s.view.y +ℤ dy }) s.clean)
  ]

  change_size-Narrows : (width height : ℤ) → Step s (change_size width height s)
  unfolding change_size
  change_size-Narrows width height =
      elim (Bool-cases (eqb_ℤ s.view.w width && eqb_ℤ s.view.h height)) [
        | inl e ↦ rw e (same-Narrows s.view s.clean i)
        | inr e ↦
            let w = limited s.viewport s.max_width width in
            let h = limited s.viewport s.max_height height in
            rw e (
              size_canvas-Narrows w h s.clean
                (record s {
                  clean = shrink s.view w h s.clean;
                  view = record s.view { w = w; h = h };
                })
                (shrink-Narrows s.view s.clean w h i))
      ]

  viewport_change_size-Narrows : (w h : Option ℤ) → Step s (viewport_change_size w h s)
  unfolding viewport_change_size
  viewport_change_size-Narrows none h = change_size-Narrows s.fb_width s.fb_height
  viewport_change_size-Narrows (some w) none = change_size-Narrows s.fb_width s.fb_height
  viewport_change_size-Narrows (some w) (some h) = change_size-Narrows w h

moved-Narrows : (m : Move) (s : Display) → Within s.view s.clean → Step s (moved m s)
unfolding viewport_change_pos resize
moved-Narrows (by dx dy) s i =
    move_by-Narrows s i (clamp_x s.view s.fb_width (if s.viewport then dx else pos 0 -ℤ s.view.w))
      (clamp_y s.view s.fb_height (if s.viewport then dy else pos 0 -ℤ s.view.h))
moved-Narrows (to_size w h) s i = viewport_change_size-Narrows s i w h
moved-Narrows (screen w h) s i =
    viewport_change_size-Narrows (record s { fb_width = w; fb_height = h; previous_style = none }) i
      none none

-- Whatever moves and sizes come, only what shows counts as clean.
moved_all-Within :
    (ms : List Move) (s : Display)
    → Within s.view s.clean
    → Within (moved_all ms s).view (moved_all ms s).clean
unfolding moved_all
moved_all-Within [] s i = i
moved_all-Within (m ∷ ms) s i = moved_all-Within ms (moved m s) (moved-Narrows m s i).within

clean_views :
    (ms : List Move) (s : Display) (px py : ℤ)
    → Within s.view s.clean
    → InClean (moved_all ms s).clean px py
      ↔ (InClean s.clean px py × All (λ (vp : View). InView vp px py) (views ms s))
unfolding moved_all views
clean_views [] s px py i = (λ h. (h, tt), λ h. h.0)
clean_views (m ∷ ms) s px py i =
    let n = moved-Narrows m s i in
    let later = clean_views ms (moved m s) px py n.within in
    let here = n.points px py in
    (
      λ h. let k = later.0 h in let l = here.0 k.0 in (l.0, (l.1, k.1)),
      λ h. later.1 (here.1 (h.0, h.1.0), h.1.1),
    )

-- After `getCleanDirtyReset`, and whatever moves and sizes of the viewport and the screen since: a point
-- counts as clean exactly if it has shown all the time, from the answer on.
pub clean_iff :
    (ms : List Move) (s : Display) (px py : ℤ)
    → InClean (moved_all ms (get_clean_dirty_reset s).1).clean px py ↔ (
        InView s.view px py
        × All (λ (vp : View). InView vp px py) (views ms (get_clean_dirty_reset s).1))
unfolding get_clean_dirty_reset all_clean
clean_iff ms s px py =
    clean_views ms (get_clean_dirty_reset s).1 px py
      (record { left = omega arith; right = omega arith; top = omega arith; bottom = omega arith })
