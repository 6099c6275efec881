-- ===== src/Mouse/Tests.antt =====
-- The theorems of the mouse at concrete events.
use routercenter_old.Prelude.{ℕ, ◌≡◌, ◌≤◌, true, false, some, List, [], ◌∷◌}
use routercenter_old.Prelude.Int.{pos}
use routercenter_old.Mouse.{
  MouseEvent, Mouse, Call, Happening, went_down, went_up, wheeled, timer_fired, new, run,
}
use routercenter_old.Mouse.Buttons.{reports, run_balanced}

abbrev tap : ℕ → MouseEvent
tap x = record {
  touch = true;
  position = record { x = x; y = 7 };
  which = 0;
  button = 0;
  detail = pos 0;
  wheel_delta = pos 120;
}

abbrev some_events : List Happening
some_events =
    went_up (tap 1)
    ∷ went_down (tap 2)
    ∷ went_up (tap 3)
    ∷ wheeled (tap 4)
    ∷ timer_fired
    ∷ went_down (tap 5)
    ∷ []

run_balanced_example :
    (m : Mouse) × (calls : List Call) × (run 1 some_events new ≡ some (m, calls))
    × (reports false calls ≤ reports true calls)
run_balanced_example = run_balanced 1 some_events
