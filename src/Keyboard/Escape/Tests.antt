-- ===== src/Keyboard/Escape/Tests.antt =====
-- The theorem on escaped modifiers at a concrete event.
use routercenter_old.Prelude.{◌≡◌, refl, true, false, some, List, [], ◌∷◌, ◌++◌, if◌then◌else◌}
use routercenter_old.Keyboard.Xk
use routercenter_old.Keyboard.Event.{Event, keydown, KeyId}
use routercenter_old.Keyboard.Escape.{escape_modifiers}
use routercenter_old.Keyboard.Escape.Restore.{escape_modifiers_lem}
use routercenter_old.Keyboard.Track.Pressed.{nothing, serve_all, serve, has}

-- The sign @ made with the keys Alt and Control.
abbrev at_sign : Event
at_sign = record {
  type = keydown;
  key_id = some (KeyId.code 50);
  keysym = some 64;
  escape = some (Xk.alt_l ∷ Xk.control_l ∷ []);
}

escape_modifiers_lem_example :
    (before : List Event) × (after : List Event) × (escape_modifiers at_sign
      ≡ before ++ at_sign ∷ after)
    × (serve_all nothing before Xk.alt_l
        ≡ (if has Xk.alt_l (Xk.alt_l ∷ Xk.control_l ∷ []) then false else false))
    × (serve_all nothing (escape_modifiers at_sign) Xk.alt_l ≡ (
        if has Xk.alt_l (Xk.alt_l ∷ Xk.control_l ∷ [])
        then true
        else serve nothing at_sign Xk.alt_l))
escape_modifiers_lem_example =
    escape_modifiers_lem nothing at_sign (Xk.alt_l ∷ Xk.control_l ∷ []) Xk.alt_l refl refl refl
