-- ===== src/Keyboard/Verify.antt =====
-- `VerifyCharModifier` of statics/include/keyboard.js: events wait for a few milliseconds behind a
-- stall, so that a keydown can be merged with the keypress that follows it.
pub mod Order
mod Tests
use routercenter_old.Prelude.{
  ℕ, ◌≡◌, Bool, true, false, not, Option, none, some, List, [], ◌∷◌, ◌++◌, ◌==◌, if◌then◌else◌,
}
use routercenter_old.Keyboard.Event.{Event, EventType, stall, keydown, keypress, keyup, releaseall}

-- `queue`, and whether the timer runs.
pub record Waiting : Type 0 where
  pub queue : List Event
  pub timer : Bool

unfoldable pub nothing_waits : Waiting
nothing_waits = record { queue = []; timer = false }

abbrev same_keysym : Option ℕ → Option ℕ → Bool
same_keysym (some a) (some b) = a == b
same_keysym none none = true
same_keysym _ _ = false

abbrev keeps_escape : Option ℕ → Option ℕ → Bool
keeps_escape none pressed = true
keeps_escape (some k) pressed = not (same_keysym (some k) pressed)

-- The keydown takes the key symbol of the keypress, and its escape if the modifier mattered. (A
-- keypress with an escape has a key symbol.)
unfoldable pub merge : Event → Event → Event
merge cur press = record cur {
  keysym = press.keysym;
  escape = elim press.escape [
    | none ↦ cur.escape
    | some mods ↦ if keeps_escape cur.keysym press.keysym then some mods else cur.escape
  ];
}

unfoldable pub is_keypress : EventType → Bool
is_keypress keypress = true
is_keypress _ = false

unfoldable pub is_keydown : EventType → Bool
is_keydown keydown = true
is_keydown _ = false

unfoldable pub is_stall : EventType → Bool
is_stall stall = true
is_stall _ = false

abbrev add_out : Event → Waiting × List Event → Waiting × List Event
add_out e (w, out) = (w, e ∷ out)

-- The loop of `process` while the timer does not run.
unfoldable pub drain : List Event → Waiting × List Event
drain [] = (record { queue = []; timer = false }, [])
drain (cur ∷ []) =
    if is_stall cur.type
    then (record { queue = []; timer = true }, [])
    else (record { queue = []; timer = false }, cur ∷ [])
drain (cur ∷ next ∷ rest) =
    let merged = add_out (merge cur next) (drain rest) in
    let passed = add_out cur (drain (next ∷ rest)) in
    if is_stall cur.type
    then (record { queue = next ∷ rest; timer = true }, [])
    else if is_keydown cur.type
    then if is_keypress next.type then merged else passed
    else passed

-- An event comes in.
unfoldable pub verify : Waiting → Event → Waiting × List Event
verify w evt =
    if w.timer then (record w { queue = w.queue ++ evt ∷ [] }, []) else drain (w.queue ++ evt ∷ [])

-- The timer fires.
unfoldable pub timeout : Waiting → Waiting × List Event
timeout w = drain w.queue

-- What can happen; a timer fires only while it runs.
pub data Happening : Type 0 where
  came : Event → Happening
  fired : Happening

unfoldable pub happen : Waiting → Happening → Waiting × List Event
happen w (came evt) = verify w evt
happen w fired = if w.timer then timeout w else (w, [])

unfoldable pub run : Waiting → List Happening → Waiting × List Event
run w [] = (w, [])
run w (h ∷ hs) = let (w', out) = happen w h in let (w'', outs) = run w' hs in (w'', out ++ outs)
