-- ===== src/Display/Cover.antt =====
-- What `getCleanDirtyReset` of statics/include/display.js answers, as sets of points of the screen.
use routercenter_old.Prelude.{
  ◌≡◌, true, false, ◌⊎◌, inl, inr, ◌↔◌, Option, none, some, List, [], ◌∷◌, ◌++◌, arith,
}
use routercenter_old.Prelude.Int.{
  ℤ, pos, ◌+ℤ◌, ◌≤ℤ◌, ◌<ℤ◌, ltb_ℤ, ltb_ℤ-cases, leb_ℤ-cases, int_laws,
}
use routercenter_old.Rfb.Messages.{Box}
use routercenter_old.Display.{
  View, Clean, Display, last, box, is_stale, left_box, right_box, top_box, bottom_box, only_if,
  side_boxes, clean_box, dirty_boxes, get_clean_dirty_reset,
}

abbrev pub value : Option ℤ → ℤ
value none = pos 0
value (some v) = v

abbrev pub InBox : Box → ℤ → ℤ → Type 0
InBox b px py =
    (value b.x ≤ℤ px)
    × (px <ℤ value b.x +ℤ value b.w)
    × (value b.y ≤ℤ py)
    × (py <ℤ value b.y +ℤ value b.h)

abbrev pub Covered : List Box → ℤ → ℤ → Type 0
Covered [] px py = ⊥
Covered (b ∷ bs) px py = InBox b px py ⊎ Covered bs px py

-- The points that show.
abbrev pub InView : View → ℤ → ℤ → Type 0
InView vp px py = (vp.x ≤ℤ px) × (px ≤ℤ last vp.x vp.w) × (vp.y ≤ℤ py) × (py ≤ℤ last vp.y vp.h)

-- The points that are up to date.
abbrev pub InClean : Clean → ℤ → ℤ → Type 0
InClean cr px py = (cr.x1 ≤ℤ px) × (px ≤ℤ cr.x2) × (cr.y1 ≤ℤ py) × (py ≤ℤ cr.y2)

-- Only what shows is up to date.
pub record Within (vp : View) (cr : Clean) : Type 0 where
  pub left : vp.x ≤ℤ cr.x1
  pub right : cr.x2 ≤ℤ last vp.x vp.w
  pub top : vp.y ≤ℤ cr.y1
  pub bottom : cr.y2 ≤ℤ last vp.y vp.h

Covered-left : (bs cs : List Box) (px py : ℤ) → Covered bs px py → Covered (bs ++ cs) px py
Covered-left [] cs px py h = absurd h
Covered-left (b ∷ bs) cs px py (inl h) = inl h
Covered-left (b ∷ bs) cs px py (inr h) = inr (Covered-left bs cs px py h)

Covered-right : (bs cs : List Box) (px py : ℤ) → Covered cs px py → Covered (bs ++ cs) px py
Covered-right [] cs px py h = h
Covered-right (b ∷ bs) cs px py h = inr (Covered-right bs cs px py h)

Covered-parts :
    (bs cs : List Box) (px py : ℤ) → Covered (bs ++ cs) px py → Covered bs px py ⊎ Covered cs px py
Covered-parts [] cs px py h = inr h
Covered-parts (b ∷ bs) cs px py (inl h) = inl (inl h)
Covered-parts (b ∷ bs) cs px py (inr h) = elim (Covered-parts bs cs px py h) [
  | inl k ↦ inl (inr k)
  | inr k ↦ inr k
]

present :
    (a b : ℤ) (box : Box) (px py : ℤ)
    → a <ℤ b
    → InBox box px py
    → Covered (only_if (ltb_ℤ a b) box) px py
present a b box px py l h = elim (ltb_ℤ-cases a b) [
  | inl (e, k) ↦ rw e (inl h)
  | inr (e, k) ↦ absurd (omega arith)
]

absent :
    (a b : ℤ) (box : Box) (px py : ℤ)
    → Covered (only_if (ltb_ℤ a b) box) px py
    → (a <ℤ b) × InBox box px py
absent a b box px py h = elim (ltb_ℤ-cases a b) [
  | inl (e, k) ↦ elim (rw e at h) [ inl i ↦ (k, i) | inr i ↦ absurd i ]
  | inr (e, k) ↦ absurd (rw e at h)
]

module _ (vp : View) (cr : Clean) where
  abbrev lefts : List Box
  lefts = only_if (ltb_ℤ vp.x cr.x1) (left_box vp cr)

  abbrev rights : List Box
  rights = only_if (ltb_ℤ cr.x2 (last vp.x vp.w)) (right_box vp cr)

  abbrev tops : List Box
  tops = only_if (ltb_ℤ vp.y cr.y1) (top_box vp cr)

  abbrev bottoms : List Box
  bottoms = only_if (ltb_ℤ cr.y2 (last vp.y vp.h)) (bottom_box vp cr)

  module _ (px py : ℤ) where
    abbrev Sides : Type 0
    Sides = InBox (clean_box cr) px py ⊎ Covered (side_boxes vp cr) px py

    in_left : px <ℤ cr.x1 → InView vp px py → Covered (side_boxes vp cr) px py
    in_left l v =
        Covered-left lefts (rights ++ (tops ++ bottoms)) px py
          (present vp.x cr.x1 (left_box vp cr) px py (omega arith) (omega int_laws))

    in_right : cr.x2 <ℤ px → InView vp px py → Covered (side_boxes vp cr) px py
    in_right l v = Covered-right lefts (rights ++ (tops ++ bottoms)) px py (
        Covered-left rights (tops ++ bottoms) px py (
          present cr.x2 (last vp.x vp.w) (right_box vp cr) px py (omega int_laws) (omega int_laws)))

    in_top :
        cr.x1 ≤ℤ px → px ≤ℤ cr.x2 → py <ℤ cr.y1 → InView vp px py → Covered (side_boxes vp cr) px py
    in_top l r t v = Covered-right lefts (rights ++ (tops ++ bottoms)) px py (
        Covered-right rights (tops ++ bottoms) px py (
          Covered-left tops bottoms px py
            (present vp.y cr.y1 (top_box vp cr) px py (omega arith) (omega int_laws))))

    in_bottom :
        cr.x1 ≤ℤ px → px ≤ℤ cr.x2 → cr.y2 <ℤ py → InView vp px py → Covered (side_boxes vp cr) px py
    in_bottom l r b v = Covered-right lefts (rights ++ (tops ++ bottoms)) px py (
        Covered-right rights (tops ++ bottoms) px py (
          Covered-right tops bottoms px py (
            present cr.y2 (last vp.y vp.h) (bottom_box vp cr) px py (omega int_laws)
              (omega int_laws))))

    in_sides : InView vp px py → Sides
    unfolding clean_box
    in_sides v = elim (ltb_ℤ-cases px cr.x1) as (λ _. Sides) [
      | inl (e, l) ↦ inr (in_left l v)
      | inr (e, l) ↦ elim (ltb_ℤ-cases cr.x2 px) as (λ _. Sides) [
        | inl (f, r) ↦ inr (in_right r v)
        | inr (f, r) ↦ elim (ltb_ℤ-cases py cr.y1) as (λ _. Sides) [
          | inl (g, t) ↦ inr (in_top l r t v)
          | inr (g, t) ↦ elim (ltb_ℤ-cases cr.y2 py) as (λ _. Sides) [
            | inl (h, b) ↦ inr (in_bottom l r b v)
            | inr (h, b) ↦ inl (omega int_laws)
          ]
        ]
      ]
    ]

    -- A clean rectangle that is no single column or row.
    module _ (w : Within vp cr) (wide : cr.x1 <ℤ cr.x2) (high : cr.y1 <ℤ cr.y2) where
      left_in : InBox (left_box vp cr) px py → InView vp px py
      left_in h = omega (int_laws, w.left, w.right, w.top, w.bottom)

      right_in : InBox (right_box vp cr) px py → InView vp px py
      right_in h = omega (int_laws, w.left, w.right, w.top, w.bottom)

      top_in : InBox (top_box vp cr) px py → InView vp px py
      top_in h = omega (int_laws, w.left, w.right, w.top, w.bottom)

      bottom_in : InBox (bottom_box vp cr) px py → InView vp px py
      bottom_in h = omega (int_laws, w.left, w.right, w.top, w.bottom)

      sides_in : Covered (side_boxes vp cr) px py → InView vp px py
      sides_in c = elim (Covered-parts lefts (rights ++ (tops ++ bottoms)) px py c) [
        | inl h ↦ left_in (absent vp.x cr.x1 (left_box vp cr) px py h).1
        | inr d ↦ elim (Covered-parts rights (tops ++ bottoms) px py d) [
          | inl h ↦ right_in (absent cr.x2 (last vp.x vp.w) (right_box vp cr) px py h).1
          | inr e ↦ elim (Covered-parts tops bottoms px py e) [
            | inl h ↦ top_in (absent vp.y cr.y1 (top_box vp cr) px py h).1
            | inr h ↦ bottom_in (absent cr.y2 (last vp.y vp.h) (bottom_box vp cr) px py h).1
          ]
        ]
      ]

in_clean : (cr : Clean) (px py : ℤ) → InBox (clean_box cr) px py → InClean cr px py
unfolding clean_box
in_clean cr px py h = omega int_laws

stale-cases :
    (cr : Clean)
    → (is_stale cr ≡ true) ⊎ ((is_stale cr ≡ false) × (cr.x1 <ℤ cr.x2) × (cr.y1 <ℤ cr.y2))
stale-cases cr = elim (leb_ℤ-cases cr.x2 cr.x1) [
  | inl (e, l) ↦ inl (rw e)
  | inr (e, l) ↦ elim (leb_ℤ-cases cr.y2 cr.y1) [
    | inl (f, k) ↦ inl (rw (e, f))
    | inr (f, k) ↦ inr (rw (e, f), l, k)
  ]
]

module _ (s : Display) (px py : ℤ) where
  -- The areas that `getCleanDirtyReset` answers.
  abbrev pub Answered : Type 0
  Answered =
      InBox (get_clean_dirty_reset s).0.clean_box px py
      ⊎ Covered (get_clean_dirty_reset s).0.dirty_boxes px py

  view_answered : InView s.view px py → Answered
  unfolding get_clean_dirty_reset dirty_boxes
  view_answered v = elim (stale-cases s.clean) [
    | inl e ↦ inr (rw e (inl (omega int_laws)))
    | inr (e, w, h) ↦ rw e (in_sides s.view s.clean px py v)
  ]

  answered_view : Within s.view s.clean → Answered → InView s.view px py
  unfolding get_clean_dirty_reset dirty_boxes
  answered_view w (inl c) =
      let i = in_clean s.clean px py c in omega (arith, w.left, w.right, w.top, w.bottom, i)
  answered_view w (inr c) = elim (stale-cases s.clean) [
    | inl e ↦ elim (rw e at c) [ inl h ↦ omega int_laws | inr h ↦ absurd h ]
    | inr (e, wide, high) ↦ sides_in s.view s.clean px py w wide high (rw e at c)
  ]

  -- Where only what shows counts as clean: the clean box and the dirty boxes that `getCleanDirtyReset`
  -- answers consist of exactly the points that show.
  pub get_clean_dirty_reset_lem : Within s.view s.clean → InView s.view px py ↔ Answered
  get_clean_dirty_reset_lem w = (view_answered, answered_view w)
