-- ===== src/Keyboard/Track/Tests.antt =====
-- The theorems of the key state at concrete events.
use routercenter_old.Prelude.{ℕ, ◌≡◌, refl, true, false, some, none, List, [], ◌∷◌, ◌++◌}
use routercenter_old.Keyboard.Xk
use routercenter_old.Keyboard.Event.{Event, keydown, keypress, releaseall, KeyId}
use routercenter_old.Keyboard.Track.{
  Entry, track, track_all, on_keydown, on_keypress, on_keyup, opened, is_new_key, last_entry,
  change_last, add_keysym, new_entry, take_entry, take_match, same_id, copies, insert_keysym,
  or_new, ignores,
}
use routercenter_old.Keyboard.Track.Pressed.{nothing, serve_all, serve, tracked}
use routercenter_old.Keyboard.Track.Release.{track_all-tracked, releaseall_lem}
use routercenter_old.Keyboard.Track.Once.{sent_once}

-- The key with code 65 goes down with no key symbol yet, then its character comes, then shift.
abbrev a_down : Event
a_down = record { type = keydown; key_id = some (KeyId.code 65); keysym = none; escape = none }

abbrev a_press : Event
a_press = record { type = keypress; key_id = some (KeyId.code 97); keysym = some 97; escape = none }

abbrev shift_down : Event
shift_down = record {
  type = keydown;
  key_id = some (KeyId.code 16);
  keysym = some Xk.shift_l;
  escape = none;
}

abbrev let_go : Event
let_go = record { type = releaseall; key_id = none; keysym = none; escape = none }

abbrev typed : List Event
typed = a_down ∷ a_press ∷ shift_down ∷ []

-- What a run of the key state computes with.
runs : List Entry → List Event → List Entry × List Event
unfolding track_all track on_keydown on_keypress on_keyup opened is_new_key last_entry change_last
    add_keysym new_entry take_entry take_match same_id copies insert_keysym or_new ignores serve_all
    serve tracked
runs = track_all

typed_97 : serve_all nothing (track_all [] typed).1 97 ≡ true
unfolding runs
typed_97 = refl

track_all-tracked_example : tracked 97 (track_all [] typed).0 ≡ true
track_all-tracked_example = track_all-tracked typed 97 typed_97

releaseall_lem_example :
    ((k : ℕ)
      → serve_all nothing ((track_all [] typed).1 ++ (track (track_all [] typed).0 let_go).1) k
        ≡ false)
    × ((track (track_all [] typed).0 let_go).0 ≡ [])
releaseall_lem_example = releaseall_lem typed let_go refl

sent_once_example :
    (track_all [] (a_down ∷ a_press ∷ [])).1 ≡ record a_press { type = keydown } ∷ []
sent_once_example =
    sent_once [] a_down a_press 97 refl refl refl (unfold is_new_key last_entry in refl)
