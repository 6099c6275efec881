-- ===== src/Mouse/Taps.antt =====
-- Two touches one after the other.
use routercenter_old.Prelude.{ℕ, ◌≡◌, true, false, some, List, [], ◌∷◌, if◌then◌else◌, arith}
use routercenter_old.Mouse.{
  Pos, MouseEvent, Mouse, Call, notify, mouse_button, is_near, touched, place, button_mask,
  handle_mouse_button, handle_mouse_down, handle_mouse_up, reset_double_click_timer, went_down,
  went_up, timer_fired, happen, run,
}

-- What two touches at `p` and `q` with a release at `u` between them report, all with the mask `b`.
abbrev pub presses : Pos → Pos → Pos → ℕ → List Call
presses p u q b =
    notify
    ∷ mouse_button p true b
    ∷ notify
    ∷ mouse_button u false b
    ∷ notify
    ∷ mouse_button q true b
    ∷ []

-- A touch that goes down while no timer runs, is released, and goes down again: if the timer has not
-- fired and the second place is near, the second press is reported at the first place, so that the
-- two make a double click; otherwise, and always after the timer, it is reported where it is.
double_tap :
    (ratio : ℕ) (first release second : MouseEvent) (m : Mouse)
    → m.focused ≡ true
    → m.timer ≡ false
    → first.touch ≡ true
    → release.touch ≡ true
    → second.touch ≡ true
    → ((m' : Mouse) × (run ratio (went_down first ∷ went_up release ∷ went_down second ∷ []) m
          ≡ some (
            m',
            presses first.position release.position
                (if is_near ratio first.position second.position
                  then first.position
                  else second.position)
                m.touch_button,
          )))
      × ((m' : Mouse) × (run ratio
              (went_down first ∷ went_up release ∷ timer_fired ∷ went_down second ∷ [])
              m
            ≡ some (m', presses first.position release.position second.position m.touch_button)))
unfolding run happen handle_mouse_down handle_mouse_up handle_mouse_button place touched button_mask
    reset_double_click_timer
double_tap ratio first release second m focus idle f r s =
    let after : Pos → Mouse =
      λ p. record m { timer = true; last_touch = some p; mouse_captured = true } in
    (
      (after first.position, ground (arith, focus, idle, f, r, s)),
      (after second.position, ground (arith, focus, idle, f, r, s)),
    )
