-- ===== src/Keyboard/Escape.antt =====
-- `EscapeModifiers` of statics/include/keyboard.js: the modifiers that gave a character are let go of
-- round the event that sends it.
pub mod Restore
mod Tests
use routercenter_old.Prelude.{ℕ, ◌≡◌, Option, none, some, List, [], ◌∷◌, ◌++◌}
use routercenter_old.Keyboard.Event.{Event, EventType, keydown, keyup, KeyId, lookup_keysym}

-- An event that the stage makes up itself; `keyId` is 0.
unfoldable pub made_up : EventType → ℕ → Event
made_up type k = record {
  type = type;
  key_id = some (KeyId.code 0);
  keysym = lookup_keysym (some k);
  escape = none;
}

unfoldable pub made_up_all : EventType → List ℕ → List Event
unfolding made_up
made_up_all type [] = []
made_up_all type (k ∷ ks) = made_up type k ∷ made_up_all type ks

unfoldable pub escape_modifiers : Event → List Event
escape_modifiers evt = elim evt.type [
  | keydown ↦ elim evt.escape [
    | none ↦ evt ∷ []
    | some mods ↦ made_up_all keyup mods ++ evt ∷ made_up_all keydown mods
  ]
  | _ ↦ evt ∷ []
]

unfoldable pub escape_all : List Event → List Event
escape_all [] = []
escape_all (evt ∷ evts) = escape_modifiers evt ++ escape_all evts
