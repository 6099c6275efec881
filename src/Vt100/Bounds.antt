-- ===== src/Vt100/Bounds.antt =====
-- The cursor of the terminal stays on the screen, and the screen keeps its size, whatever is written.
use routercenter_old.Prelude.{
  ℕ, zero, suc, ◌+◌, ◌-◌, ◌%◌, ◌≤◌, ◌<◌, ◌≡◌, refl, leb, ◌==◌, if◌then◌else◌, arith, Bool-cases,
  inl, inr,
}
use routercenter_old.Vt100.{
  Attr, Terminal, blank, set_row, set_rows, scroll, scrolls, may_scroll, clrtoeol, clrtobot, clear,
  move, put_char, tab, addch,
}
use routercenter_old.Vt100.Grid.{IsGrid, set_row-IsGrid, set_rows-IsGrid, rotate-IsGrid}
use routercenter_old.Vt100.Write.{line_feed}

-- A screen of `w` columns and `h` rows.
abbrev pub IsShape : ℕ → ℕ → Terminal → Type 0
IsShape w h t = ((t.wd ≡ w) × (t.ht ≡ h)) × (IsGrid w h t.text × IsGrid w h t.attrs)

-- The cursor may be one behind the last column or row.
abbrev pub IsScreen : ℕ → ℕ → Terminal → Type 0
IsScreen w h t = ((t.row ≤ h) × (t.col ≤ w)) × IsShape w h t

module _ (w h : ℕ) (wide : 8 ≤ w) (high : 1 ≤ h) where
  pub scroll-IsShape : (t : Terminal) → IsShape w h t → IsShape w h (scroll t)
  unfolding scroll
  scroll-IsShape t s = (
    s.0,
    (
      rotate-IsGrid w h t.wd blank t.text (omega (arith, s.0.0)) s.1.0,
      rotate-IsGrid w h t.wd t.bkgd t.attrs (omega (arith, s.0.0)) s.1.1,
    ),
  )

  scrolls-IsShape : (n : ℕ) (t : Terminal) → IsShape w h t → IsShape w h (scrolls n t)
  unfolding scrolls
  scrolls-IsShape zero t s = s
  scrolls-IsShape (suc n) t s = scrolls-IsShape n (scroll t) (scroll-IsShape t s)

  set_row-IsShape :
      (t : Terminal) (r from count c : ℕ) (a : Attr)
      → from + count ≤ w
      → IsShape w h t
      → IsGrid w h (set_row r from count c t.text) × IsGrid w h (set_row r from count a t.attrs)
  set_row-IsShape t r from count c a fits s = (
    set_row-IsGrid w h r from count c t.text fits s.1.0,
    set_row-IsGrid w h r from count a t.attrs fits s.1.1,
  )

  set_rows-IsShape :
      (t : Terminal) (r : ℕ) (a : Attr)
      → IsShape w h t
      → IsGrid w h (set_rows r t.wd blank t.text) × IsGrid w h (set_rows r t.wd a t.attrs)
  set_rows-IsShape t r a s = (
    set_rows-IsGrid w h r t.wd blank t.text (omega (arith, s.0.0)) s.1.0,
    set_rows-IsGrid w h r t.wd a t.attrs (omega (arith, s.0.0)) s.1.1,
  )

  -- The scrolling rows take the cursor back onto the last one.
  may_scroll-row : (t : Terminal) → t.ht ≡ h → (may_scroll t).row < h
  unfolding may_scroll
  may_scroll-row t e = omega (arith, e)

  may_scroll-IsShape : (t : Terminal) → IsShape w h t → IsShape w h (may_scroll t)
  unfolding may_scroll
  may_scroll-IsShape t s = scrolls-IsShape (t.row + 1 - t.ht) t s

  scrolls-col : (n : ℕ) (t : Terminal) → (scrolls n t).col ≡ t.col
  unfolding scrolls scroll
  scrolls-col zero t = refl
  scrolls-col (suc n) t = scrolls-col n (scroll t)

  clrtoeol-IsShape : (t : Terminal) → t.col ≤ w → IsShape w h t → IsShape w h (clrtoeol t)
  unfolding clrtoeol
  clrtoeol-IsShape t in_cols s = elim (Bool-cases (leb t.ht t.row)) [
    | inl e ↦ rw e s
    | inr e ↦
        rw e
          (s.0, set_row-IsShape t t.row t.col (t.wd - t.col) blank t.bkgd (omega (arith, s.0.0)) s)
  ]

  clrtoeol-cursor : (t : Terminal) → ((clrtoeol t).row ≡ t.row) × ((clrtoeol t).col ≡ t.col)
  unfolding clrtoeol
  clrtoeol-cursor t = ground arith

  pub clrtoeol-IsScreen : (t : Terminal) → IsScreen w h t → IsScreen w h (clrtoeol t)
  clrtoeol-IsScreen t s =
      let (same_row, same_col) = clrtoeol-cursor t in
      (
        (omega (arith, same_row, s.0.0), omega (arith, same_col, s.0.1)),
        clrtoeol-IsShape t s.0.1 s.1,
      )

  pub clrtobot-IsScreen : (t : Terminal) → IsScreen w h t → IsScreen w h (clrtobot t)
  unfolding clrtobot
  clrtobot-IsScreen t s =
      let u = clrtoeol-IsScreen t s in
      (
        u.0,
        (
          u.1.0,
          (
            set_rows-IsGrid w h (t.row + 1) t.wd blank (clrtoeol t).text (omega (arith, s.1.0.0))
                u.1.1.0,
            set_rows-IsGrid w h (t.row + 1) t.wd t.bkgd (clrtoeol t).attrs (omega (arith, s.1.0.0))
                u.1.1.1,
          ),
        ),
      )

  pub clear-IsScreen : (t : Terminal) → IsShape w h t → IsScreen w h (clear t)
  unfolding clear
  clear-IsScreen t s = ((omega arith, omega arith), (s.0, set_rows-IsShape t 0 t.bkgd s))

  pub move-IsScreen : (r c : ℕ) (t : Terminal) → IsShape w h t → IsScreen w h (move r c t)
  unfolding move
  move-IsScreen r c t s = ((ground (arith, s.0.1), ground (arith, s.0.0)), s)

  put_char-IsScreen :
      (ch : ℕ) (a : Attr) (t : Terminal) → IsScreen w h t → IsScreen w h (put_char ch a t)
  unfolding put_char
  put_char-IsScreen ch a t s =
      let wrapped = leb t.wd t.col in
      let cc = if wrapped then 0 else t.col in
      let t' : Terminal = record t { row = if wrapped then t.row + 1 else t.row } in
      let u = may_scroll t' in
      let shape = may_scroll-IsShape t' s.1 in
      let below = may_scroll-row t' s.1.0.1 in
      let fits : cc + 1 ≤ w = ground (arith, s.1.0.0) in
      ((omega (arith, below), fits), (shape.0, set_row-IsShape u u.row cc 1 ch a fits shape))

  tab-IsScreen : (t : Terminal) → IsScreen w h t → IsScreen w h (tab t)
  unfolding tab
  tab-IsScreen t s =
      let shape = may_scroll-IsShape t s.1 in
      let below = may_scroll-row t s.1.0.1 in
      elim (Bool-cases (leb t.wd (t.col + (8 - t.col % 8)))) [
        | inl e ↦ rw e ((omega (arith, below), omega (arith, s.0.1, s.1.0.0)), shape)
        | inr e ↦ rw e ((omega (arith, below), ground (arith, s.1.0.0)), shape)
      ]

  pub addch-IsScreen : (ch : ℕ) (t : Terminal) → IsScreen w h t → IsScreen w h (addch ch t)
  unfolding addch
  addch-IsScreen ch t s =
      let at_end = may_scroll-row t s.1.0.1 in
      let next_row : Terminal = record t { row = t.row + 1 } in
      let cleared = clrtoeol next_row in
      let shape = clrtoeol-IsShape next_row s.0.1 s.1 in
      let below = may_scroll-row cleared shape.0.1 in
      elim (Bool-cases (ch == 8)) [
        | inl e ↦ rw e ((s.0.0, omega (arith, s.0.1)), s.1)
        | inr e ↦ rw e (elim (Bool-cases (ch == 10)) [
          | inl k ↦ rw k ((omega (arith, below), omega arith), may_scroll-IsShape cleared shape)
          | inr k ↦ rw k (elim (Bool-cases (ch == 13)) [
            | inl l ↦ rw l ((omega (arith, at_end), omega arith), may_scroll-IsShape t s.1)
            | inr l ↦ rw l (elim (Bool-cases (ch == 9)) [
              | inl m ↦ rw m (tab-IsScreen t s)
              | inr m ↦ rw m (put_char-IsScreen ch t.c_attr t s)
            ])
          ])
        ])
      ]

  pub line_feed-IsScreen : (t : Terminal) → IsScreen w h t → IsScreen w h (line_feed t)
  unfolding line_feed
  line_feed-IsScreen t s = elim (Bool-cases (leb (t.ht - 1) t.row)) [
    | inl e ↦ rw e (move-IsScreen (t.ht - 1) 0 (scroll t) (scroll-IsShape t s.1))
    | inr e ↦ rw e (move-IsScreen (t.row + 1) 0 t s.1)
  ]
