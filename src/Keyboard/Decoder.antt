-- ===== src/Keyboard/Decoder.antt =====
-- `KeyEventDecoder` of statics/include/keyboard.js: what a DOM event becomes, and whether the browser
-- is kept from handling it too.
pub mod Outcome
use routercenter_old.Prelude.{
  ℕ, ◌≡◌, Bool, true, false, not, ◌&&◌, ◌||◌, Option, none, some, List, [], ◌∷◌, ◌++◌, ◌==◌,
  if◌then◌else◌,
}
use routercenter_old.Prelude.Text.{codes}
use routercenter_old.Keyboard.Keysym.{non_character_key}
use routercenter_old.Keyboard.Event.{
  DomEvent, Event, EventType, stall, keydown, keypress, keyup, releaseall, get_key, get_keysym,
}
use routercenter_old.Keyboard.Modifiers.{
  Modifiers, has_shortcut_modifier, active_char_modifier, sync_key_event, sync_any,
}

abbrev is_some {ℓ} : {A : Type ℓ} → Option A → Bool
is_some none = false
is_some (some a) = true

abbrev code_of : Option ℕ → ℕ
code_of none = 0
code_of (some c) = c

-- `!!kbdUtil.nonCharacterKey(evt)`
unfoldable pub is_special : DomEvent → Bool
is_special evt = is_some (non_character_key (code_of evt.key_code))

unfoldable pub same_text : List ℕ → List ℕ → Bool
same_text [] [] = true
same_text [] (y ∷ ys) = false
same_text (x ∷ xs) [] = false
same_text (x ∷ xs) (y ∷ ys) = x == y && same_text xs ys

abbrev names_shift : Option (List ℕ) → Bool
names_shift none = false
names_shift (some k) = same_text k (codes "Shift")

unfoldable pub is_shift : DomEvent → Bool
is_shift evt = code_of evt.key_code == 0x10 || names_shift evt.key

unfoldable pub is_one_of : ℕ → List ℕ → Bool
is_one_of k [] = false
is_one_of k (j ∷ js) = j == k || is_one_of k js

abbrev is_down_event : EventType → Bool
is_down_event keydown = true
is_down_event _ = false

abbrev is_press_event : EventType → Bool
is_press_event keypress = true
is_press_event _ = false

-- `escape` is set on a keypress whose key symbol is none of the active char modifier's own.
unfoldable pub escape_of : EventType → Option ℕ → Option (List ℕ) → Option (List ℕ)
escape_of type none active = none
escape_of type (some k) none = none
escape_of type (some k) (some mods) =
    if is_press_event type && not (is_one_of k mods) then some mods else none

unfoldable pub stall_event : Event
stall_event = record { type = stall; key_id = none; keysym = none; escape = none }

unfoldable pub releaseall_event : Event
releaseall_event = record { type = releaseall; key_id = none; keysym = none; escape = none }

-- What the decoder works with: the table of key symbols and the char modifier of the platform.
module _ (codepoints : ℕ → Option ℕ) (char_modifier : List ℕ) where
  unfoldable pub decoded : DomEvent → EventType → Modifiers → Event
  decoded evt type mods =
      let keysym = get_keysym codepoints evt in
      let active = active_char_modifier char_modifier mods in
      let decided =
        not (is_down_event type)
        || (is_special evt || (has_shortcut_modifier char_modifier mods || is_some active)) in
      record {
        type = type;
        key_id = get_key evt;
        keysym = if decided then keysym else none;
        escape = escape_of type keysym active;
      }

  -- The events passed on, and whether the browser is kept off.
  unfoldable pub process : DomEvent → EventType → Modifiers → List Event × Bool
  process evt type mods =
      let stalls =
        is_down_event type
        && (is_some (active_char_modifier char_modifier mods) && not (is_special evt)) in
      (
        (if stalls then stall_event ∷ decoded evt type mods ∷ [] else decoded evt type mods ∷ []),
        not (is_shift evt)
            && (not (is_down_event type)
                || (has_shortcut_modifier char_modifier mods || is_special evt)),
      )

  -- The handlers: the modifiers are brought in line first, but not by a keypress.
  unfoldable pub on_keydown : DomEvent → Modifiers → Modifiers × List Event × Bool
  on_keydown evt mods =
      let (mods', synced) = sync_key_event codepoints evt true mods in
      let (events, suppress) = process evt keydown mods' in (mods', synced ++ events, suppress)

  unfoldable pub on_keypress : DomEvent → Modifiers → Modifiers × List Event × Bool
  on_keypress evt mods =
      let (events, suppress) = process evt keypress mods in (mods, events, suppress)

  unfoldable pub on_keyup : DomEvent → Modifiers → Modifiers × List Event × Bool
  on_keyup evt mods =
      let (mods', synced) = sync_key_event codepoints evt false mods in
      let (events, suppress) = process evt keyup mods' in (mods', synced ++ events, suppress)

  unfoldable pub sync_modifiers : DomEvent → Modifiers → Modifiers × List Event
  sync_modifiers evt mods = sync_any evt mods

unfoldable pub release_all : List Event
release_all = releaseall_event ∷ []
