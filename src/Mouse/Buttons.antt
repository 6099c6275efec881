-- ===== src/Mouse/Buttons.antt =====
-- The buttons that class Mouse reports.
use routercenter_old.Prelude.{
  ℕ, suc, ◌+◌, ◌≤◌, ◌≡◌, refl, ◌∙◌, Bool, true, false, not, ◌&&◌, ◌||◌, Option, none, some, List,
  [], ◌∷◌, ◌++◌, if◌then◌else◌, arith, Bool-cases, Option-cases, inl, inr,
}
use routercenter_old.Mouse.{
  is_near, Pos, MouseEvent, Mouse, Call, notify, mouse_button, mouse_move, touched, place,
  button_mask, handle_mouse_button, captured, handle_mouse_down, handle_mouse_up,
  handle_mouse_wheel, handle_mouse_move, reset_double_click_timer, Happening, went_down, went_up,
  moved, wheeled, timer_fired, happen, run, new,
}

abbrev pub is_some {ℓ} : {A : Type ℓ} → Option A → Bool
is_some none = false
is_some (some x) = true

-- While the timer of the double click runs there is a last touch.
abbrev pub is_ready : Mouse → Bool
is_ready m = not m.timer || is_some m.last_touch

abbrev pub held : Mouse → ℕ
held m = if m.mouse_captured then 1 else 0

-- How many presses, and how many releases, are reported.
abbrev pub reports : Bool → List Call → ℕ
reports b [] = 0
reports true (mouse_button p true mask ∷ calls) = suc (reports true calls)
reports false (mouse_button p false mask ∷ calls) = suc (reports false calls)
reports b (call ∷ calls) = reports b calls

reports-append : (b : Bool) (xs ys : List Call) → reports b (xs ++ ys) ≡ reports b xs + reports b ys
reports-append b [] ys = omega arith
reports-append true (mouse_button p true mask ∷ calls) ys =
    omega (arith, reports-append true calls ys)
reports-append false (mouse_button p true mask ∷ calls) ys = reports-append false calls ys
reports-append true (mouse_button p false mask ∷ calls) ys = reports-append true calls ys
reports-append false (mouse_button p false mask ∷ calls) ys =
    omega (arith, reports-append false calls ys)
reports-append true (notify ∷ calls) ys = reports-append true calls ys
reports-append false (notify ∷ calls) ys = reports-append false calls ys
reports-append true (mouse_move p ∷ calls) ys = reports-append true calls ys
reports-append false (mouse_move p ∷ calls) ys = reports-append false calls ys

-- A result that is there, of a mouse that goes on as before.
abbrev Goes : Option (Mouse × List Call) → Mouse → Type 0
Goes out m =
    (m' : Mouse) × (calls : List Call) × (out ≡ some (m', calls))
    × ((is_ready m' ≡ true) × (m'.focused ≡ true))
    × (reports false calls + held m' ≤ reports true calls + held m)

module _ (ratio : ℕ) where
  place-ready :
      (e : MouseEvent) (down : Bool) (m : Mouse)
      → is_ready m ≡ true
      → (q : Pos) × (m' : Mouse) × (place ratio e down m ≡ some (q, m'))
        × ((is_ready m' ≡ true) × (m'.focused ≡ m.focused) × (m'.mouse_captured ≡ m.mouse_captured))
  unfolding touched place
  place-ready e down m ready = elim (Bool-cases (e.touch && down)) [
    | inl t ↦ elim (Bool-cases m.timer) [
      | inl r ↦ elim (Option-cases m.last_touch) [
        | inl l ↦ absurd (ground arith)
        | inr (q, l) ↦ (
          if is_near ratio q e.position then q else e.position,
          record m { timer = true },
          ground (arith, t, r, l),
          (rw l refl, refl, refl),
        )
      ]
      | inr r ↦ (
        e.position,
        record m { last_touch = some e.position; timer = true },
        ground (arith, t, r),
        (refl, refl, refl),
      )
    ]
    | inr t ↦ (e.position, m, ground (arith, t), (ready, refl, refl))
  ]

  button-Goes :
      (e : MouseEvent) (down : Bool) (m : Mouse)
      → is_ready m ≡ true
      → m.focused ≡ true
      → (m' : Mouse) × (calls : List Call) × (handle_mouse_button ratio e down m ≡ some (m', calls))
        × ((is_ready m' ≡ true) × (m'.focused ≡ true))
        × ((m'.mouse_captured ≡ m.mouse_captured)
            × (reports false calls ≡ (if down then 0 else 1))
            × (reports true calls ≡ (if down then 1 else 0)))
  unfolding handle_mouse_button
  button-Goes e down m ready focus =
      let (q, m', placed, (still, same, hold)) = place-ready e down m ready in
      (
        m',
        notify ∷ mouse_button q down (button_mask e m') ∷ [],
        ground (arith, focus, placed),
        (still, same ∙ focus),
        (
          hold,
          elim (Bool-cases down) [ inl d ↦ rw d refl | inr d ↦ rw d refl ],
          elim (Bool-cases down) [ inl d ↦ rw d refl | inr d ↦ rw d refl ],
        ),
      )

  happen-Goes :
      (h : Happening) (m : Mouse) → is_ready m ≡ true → m.focused ≡ true → Goes (happen ratio h m) m
  unfolding happen handle_mouse_down handle_mouse_up handle_mouse_move handle_mouse_wheel
      reset_double_click_timer
  happen-Goes (went_down e) m ready focus =
      let (m', calls, eq, (still, same), (hold, up, down)) =
        button-Goes e true (captured true m) ready focus in
      (m', calls, eq, (still, same), ground (arith, up, down, hold))
  happen-Goes (went_up e) m ready focus = elim (Bool-cases m.mouse_captured) [
    | inl c ↦
        let (m', calls, eq, (still, same), (hold, up, down)) = button-Goes e false m ready focus in
        (
          captured false m',
          calls,
          ground (arith, c, eq),
          (still, same),
          ground (arith, up, down, c),
        )
    | inr c ↦ (m, [], ground (arith, c), (ready, focus), ground arith)
  ]
  happen-Goes (moved e) m ready focus =
      (m, notify ∷ mouse_move e.position ∷ [], ground (arith, focus), (ready, focus), ground arith)
  happen-Goes (wheeled e) m ready focus = (
    (handle_mouse_wheel e m).0,
    (handle_mouse_wheel e m).1,
    refl,
    (ground (arith, focus), ground (arith, focus)),
    ground (arith, focus),
  )
  happen-Goes timer_fired m ready focus =
      (reset_double_click_timer m, [], refl, (refl, focus), ground arith)

  run-Goes :
      (hs : List Happening) (m : Mouse)
      → is_ready m ≡ true
      → m.focused ≡ true
      → Goes (run ratio hs m) m
  unfolding run
  run-Goes [] m ready focus = (m, [], refl, (ready, focus), ground arith)
  run-Goes (h ∷ hs) m ready focus =
      let (m', calls, eq, (still, same), count) = happen-Goes h m ready focus in
      let (m'', later, eq', good, count') = run-Goes hs m' still same in
      (
        m'',
        calls ++ later,
        ground (arith, eq, eq'),
        good,
        rw (reports-append false calls later, reports-append true calls later)
            (omega (arith, count, count')),
      )

-- From a new mouse that keeps the focus, whatever comes in whatever order, no handler fails, and no
-- more releases than presses of a button are reported.
pub run_balanced :
    (ratio : ℕ) (hs : List Happening)
    → (m : Mouse) × (calls : List Call) × (run ratio hs new ≡ some (m, calls))
      × (reports false calls ≤ reports true calls)
unfolding new
run_balanced ratio hs =
    let (m, calls, eq, good, count) = run-Goes ratio hs new refl refl in
    (m, calls, eq, ground (arith, count))
