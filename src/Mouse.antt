-- ===== src/Mouse.antt =====
-- statics/include/input.js, the class Mouse: the handlers of the browser's mouse and touch events, with
-- what they call. Positions are whole pixels, and the handlers of the owner are set.
pub mod Taps
pub mod Buttons
mod Tests
use routercenter_old.Prelude.{
  ℕ, ◌+◌, ◌-◌, ◌*◌, ◌/◌, ◌^◌, Bool, true, false, not, ◌&&◌, ◌||◌, Option, none, some, List, [], ◌∷◌,
  ◌++◌, ltb, leb, ◌==◌, if◌then◌else◌,
}
use routercenter_old.Prelude.Int.{ℤ, pos, negsuc}
use Prim.Native.Nat.{bit_and}

pub record Pos : Type 0 where
  pub x : ℕ
  pub y : ℕ

-- `touch`: whether the event has touches; `position` is what `Util.getEventPosition` finds.
pub record MouseEvent : Type 0 where
  pub touch : Bool
  pub position : Pos
  pub which : ℕ
  pub button : ℕ
  pub detail : ℤ
  pub wheel_delta : ℤ

pub record Mouse : Type 0 where
  pub mouse_captured : Bool
  pub timer : Bool
  pub last_touch : Option Pos
  pub focused : Bool
  pub touch_button : ℕ

unfoldable pub new : Mouse
new = record {
  mouse_captured = false;
  timer = false;
  last_touch = none;
  focused = true;
  touch_button = 1;
}

-- `_notify`, `_onMouseButton` and `_onMouseMove`
pub data Call : Type 0 where
  notify : Call
  mouse_button : Pos → Bool → ℕ → Call
  mouse_move : Pos → Call

-- The square of the distance between two positions: one of the differences each way is 0.
abbrev pub distance_squared : Pos → Pos → ℕ
distance_squared p q =
    ((p.x - q.x) + (q.x - p.x)) * ((p.x - q.x) + (q.x - p.x))
    + ((p.y - q.y) + (q.y - p.y)) * ((p.y - q.y) + (q.y - p.y))

-- The mask of the buttons, whose numbers are below 31; without `which` they are the bits of IE.
unfoldable pub button_mask : MouseEvent → Mouse → ℕ
button_mask e m =
    if e.touch
    then m.touch_button
    else if not (e.which == 0)
    then 2 ^ e.button
    else bit_and e.button 1 + bit_and e.button 2 * 2 + bit_and e.button 4 / 2

-- `_captureMouse` and `_releaseMouse`
abbrev pub captured : Bool → Mouse → Mouse
captured b m = record m { mouse_captured = b }

-- `detail` counts the other way; a quotient by 40 has the sign of the number.
abbrev pub is_positive : ℤ → Bool
is_positive (pos n) = not (n == 0)
is_positive (negsuc n) = false

unfoldable pub wheel_up : MouseEvent → Bool
wheel_up e = elim e.detail [
  | pos n ↦ if n == 0 then is_positive e.wheel_delta else false
  | negsuc n ↦ true
]

unfoldable pub handle_mouse_wheel : MouseEvent → Mouse → Mouse × List Call
unfolding wheel_up
handle_mouse_wheel e m =
    let mask = if wheel_up e then 8 else 16 in
    if not m.focused
    then (m, [])
    else (m, notify ∷ mouse_button e.position true mask ∷ mouse_button e.position false mask ∷ [])

unfoldable pub handle_mouse_move : MouseEvent → Mouse → Mouse × List Call
handle_mouse_move e m = if not m.focused then (m, []) else (m, notify ∷ mouse_move e.position ∷ [])

-- `_resetDoubleClickTimer`
unfoldable pub reset_double_click_timer : Mouse → Mouse
reset_double_click_timer m = record m { timer = false }

-- What can happen, in any order.
pub data Happening : Type 0 where
  went_down went_up moved wheeled : MouseEvent → Happening
  timer_fired : Happening

-- `window.devicePixelRatio`, a whole number
module _ (ratio : ℕ) where
  -- `d < 20 * ratio`, both sides squared
  abbrev pub is_near : Pos → Pos → Bool
  is_near p q = ltb (distance_squared p q) (20 * ratio * (20 * ratio))

  -- Where a touch goes down; `none` is the error of a last position that is null.
  unfoldable pub touched : Pos → Mouse → Option (Pos × Mouse)
  touched p m =
      if m.timer
      then elim m.last_touch [
        | none ↦ none
        | some q ↦ some (if is_near q p then q else p, record m { timer = true })
      ]
      else some (p, record m { last_touch = some p; timer = true })

  unfoldable pub place : MouseEvent → Bool → Mouse → Option (Pos × Mouse)
  unfolding touched
  place e down m = if e.touch && down then touched e.position m else some (e.position, m)

  unfoldable pub handle_mouse_button : MouseEvent → Bool → Mouse → Option (Mouse × List Call)
  unfolding place
  handle_mouse_button e down m = if not m.focused then some (m, []) else elim (place e down m) [
    | none ↦ none
    | some (p, m') ↦ some (m', notify ∷ mouse_button p down (button_mask e m') ∷ [])
  ]

  unfoldable pub handle_mouse_down : MouseEvent → Mouse → Option (Mouse × List Call)
  unfolding handle_mouse_button
  handle_mouse_down e m = handle_mouse_button e true (captured true m)

  unfoldable pub handle_mouse_up : MouseEvent → Mouse → Option (Mouse × List Call)
  unfolding handle_mouse_button
  handle_mouse_up e m =
      if not m.mouse_captured then some (m, []) else elim (handle_mouse_button e false m) [
        | none ↦ none
        | some (m', calls) ↦ some (captured false m', calls)
      ]

  unfoldable pub happen : Happening → Mouse → Option (Mouse × List Call)
  unfolding handle_mouse_down handle_mouse_up handle_mouse_move handle_mouse_wheel
      reset_double_click_timer
  happen (went_down e) m = handle_mouse_down e m
  happen (went_up e) m = handle_mouse_up e m
  happen (moved e) m = some (handle_mouse_move e m)
  happen (wheeled e) m = some (handle_mouse_wheel e m)
  happen timer_fired m = some (reset_double_click_timer m, [])

  unfoldable pub run : List Happening → Mouse → Option (Mouse × List Call)
  unfolding happen
  run [] m = some (m, [])
  run (h ∷ hs) m = elim (happen h m) [
    | none ↦ none
    | some (m', calls) ↦ elim (run hs m') [
      | none ↦ none
      | some (m'', later) ↦ some (m'', calls ++ later)
    ]
  ]
