-- ===== src/Keyboard/Modifiers/Tests.antt =====
-- The modifiers of a run, and the theorems of `Sync` at a concrete event.
use routercenter_old.Prelude.{◌≡◌, refl, true, false, some, none, [], ◌∷◌}
use routercenter_old.Keyboard.Xk
use routercenter_old.Keyboard.Event.{DomEvent}
use routercenter_old.Keyboard.Modifiers.{Modifiers, sync, synced, has_shortcut_modifier}
use routercenter_old.Keyboard.Modifiers.Sync.{told_by, hear_all, sync_lem}

-- Control is down and alt is not, says an event of the shift key.
abbrev with_control : DomEvent
with_control = record {
  char = none;
  char_code = none;
  key_code = some 16;
  key = none;
  which = none;
  of_keypress = false;
  ctrl_key = some true;
  alt_key = some false;
  alt_graph_key = none;
  shift_key = some true;
  meta_key = some false;
}

abbrev alt_down : Modifiers
alt_down = record { control = false; alt = true; alt_graph = false; shift = false; meta = false }

sync-alt_down :
    (sync with_control (some Xk.shift_l) alt_down).0
    ≡ record { control = true; alt = false; alt_graph = false; shift = false; meta = false }
unfolding sync synced
sync-alt_down = refl

sync_lem_example :
    ((sync with_control (some Xk.shift_l) alt_down).0
      ≡ told_by with_control (some Xk.shift_l) alt_down)
    × (hear_all alt_down (sync with_control (some Xk.shift_l) alt_down).1
        ≡ (sync with_control (some Xk.shift_l) alt_down).0)
sync_lem_example = sync_lem with_control (some Xk.shift_l) alt_down

-- Where control and alt give characters together, neither is a shortcut while both are down.
control_alt :
    has_shortcut_modifier (Xk.alt_l ∷ Xk.control_l ∷ []) (record alt_down { control = true })
    ≡ false
unfolding has_shortcut_modifier
control_alt = refl
