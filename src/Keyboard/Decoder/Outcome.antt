-- ===== src/Keyboard/Decoder/Outcome.antt =====
-- What the decoder promises to the stages behind it.
use routercenter_old.Prelude.{ℕ, ◌≡◌, true, false, Option, none, List, arith}
use routercenter_old.Keyboard.Event.{DomEvent, keydown, get_keysym}
use routercenter_old.Keyboard.Modifiers.{Modifiers, active_char_modifier}
use routercenter_old.Keyboard.Decoder.{is_shift, process, decoded}

module _ (codepoints : ℕ → Option ℕ) (char_modifier : List ℕ) (evt : DomEvent)
    (mods : Modifiers) where
  -- A keydown that the browser may handle, so that a keypress can follow, is not decided yet: its
  -- event has no key symbol, unless it is of the shift key or a char modifier is down.
  pub undecided :
      (process codepoints char_modifier evt keydown mods).1 ≡ false
      → is_shift evt ≡ false
      → active_char_modifier char_modifier mods ≡ none
      → (decoded codepoints char_modifier evt keydown mods).keysym ≡ none
  unfolding process decoded
  undecided free no_shift no_active = ground arith

  -- A keydown that the browser is kept from handling has the key symbol that was found for it: no
  -- keypress will come to tell.
  pub decided :
      (process codepoints char_modifier evt keydown mods).1 ≡ true
      → (decoded codepoints char_modifier evt keydown mods).keysym ≡ get_keysym codepoints evt
  unfolding process decoded
  decided kept = ground arith
