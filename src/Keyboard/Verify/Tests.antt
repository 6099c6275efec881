-- ===== src/Keyboard/Verify/Tests.antt =====
-- A run of the delay, and its theorem at it.
use routercenter_old.Prelude.{ℕ, ◌≡◌, refl, true, some, none, List, [], ◌∷◌, ◌++◌, inr}
use routercenter_old.Keyboard.Event.{Event, EventType, stall, keydown, keypress, keyup, KeyId}
use routercenter_old.Keyboard.Verify.{
  nothing_waits, Happening, came, fired, run, happen, verify, timeout, drain, merge, is_stall,
  is_keydown, is_keypress,
}
use routercenter_old.Keyboard.Verify.Order.{kept, arrivals, stall_free, Settled, run_lem}

abbrev event : EventType → ℕ → Event
event t k = record { type = t; key_id = some (KeyId.code k); keysym = some k; escape = none }

abbrev pause : Event
pause = record { type = stall; key_id = none; keysym = none; escape = none }

abbrev story : List Happening
story =
    came pause
    ∷ came (event keydown 50)
    ∷ came (event keypress 64)
    ∷ fired
    ∷ came (event keyup 50)
    ∷ []

-- The keydown takes the key symbol of the keypress.
merged_story :
    (run nothing_waits story).1
    ≡ record (event keydown 50) { keysym = some 64 } ∷ event keyup 50 ∷ []
unfolding run happen verify timeout drain merge is_stall is_keydown is_keypress nothing_waits
merged_story = refl

run_lem_example :
    (stall_free (run nothing_waits story).1 ≡ true)
    × (kept (run nothing_waits story).1 ++ kept (run nothing_waits story).0.queue
        ≡ kept nothing_waits.queue ++ kept (arrivals story))
    × Settled (run nothing_waits story).0
run_lem_example = run_lem story nothing_waits (inr (unfold nothing_waits in refl))
