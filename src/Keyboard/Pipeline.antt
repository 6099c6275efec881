-- ===== src/Keyboard/Pipeline.antt =====
-- statics/include/input.js, the class Keyboard: the stages of keyboard.js one behind the other, and
-- the handlers that feed them.
pub mod Sent
mod Tests
use routercenter_old.Prelude.{
  ℕ, ◌≡◌, Bool, true, false, not, Option, none, some, List, [], ◌∷◌, ◌++◌, if◌then◌else◌,
}
use routercenter_old.Keyboard.Event.{
  DomEvent, Event, EventType, keydown, keypress, keyup, stall, releaseall,
}
use routercenter_old.Keyboard.Modifiers.{Modifiers, none_down}
use routercenter_old.Keyboard.Decoder
use routercenter_old.Keyboard.Verify
use routercenter_old.Keyboard.Verify.{Waiting, nothing_waits}
use routercenter_old.Keyboard.Track.{Entry, track_all}
use routercenter_old.Keyboard.Escape.{escape_all}

pub record Keyboard : Type 0 where
  pub mods : Modifiers
  pub waiting : Waiting
  pub entries : List Entry
  pub focused : Bool

unfoldable pub new : Keyboard
new = record { mods = none_down; waiting = nothing_waits; entries = []; focused = true }

-- What `_onKeyPress` is called with: the key symbol, and whether it goes down.
abbrev pub is_down : EventType → Bool
is_down keydown = true
is_down _ = false

-- `_handleRfbEvent` reads the key symbol without a test: a TypeError, none here, without one.
unfoldable pub rfb_event : Event → Option (ℕ × Bool)
rfb_event e = elim e.keysym [ none ↦ none | some k ↦ some (k, is_down e.type) ]

unfoldable pub rfb_events : List Event → Option (List (ℕ × Bool))
unfolding rfb_event
rfb_events [] = some []
rfb_events (e ∷ es) = elim (rfb_event e) [
  | none ↦ none
  | some k ↦ elim (rfb_events es) [ none ↦ none | some ks ↦ some (k ∷ ks) ]
]

-- The stages behind the delay. The model ends where the handler throws.
unfoldable pub sink : List Event → Keyboard → Option (Keyboard × List (ℕ × Bool))
unfolding rfb_events
sink events kb =
    let (entries, tracked) = track_all kb.entries events in
    elim (rfb_events (escape_all tracked)) [
      | none ↦ none
      | some sent ↦ some (record kb { entries = entries }, sent)
    ]

infixl 5 ◌>>=◌
abbrev ◌>>=◌ {ℓ κ} : {A : Type ℓ} {B : Type κ} → Option A → (A → Option B) → Option B
none >>= f = none
some a >>= f = f a

unfoldable pub feed : List Event → Keyboard → Option (Keyboard × List (ℕ × Bool))
unfolding sink
feed [] kb = some (kb, [])
feed (e ∷ es) kb = do
  let (waiting, passed) = Verify.verify kb.waiting e
  r ← sink passed (record kb { waiting = waiting })
  later ← feed es r.0
  some (later.0, r.1 ++ later.1)

-- The timer of the delay, if it runs.
unfoldable pub timer_fires : Keyboard → Option (Keyboard × List (ℕ × Bool))
unfolding sink
timer_fires kb =
    let (waiting, passed) = Verify.happen kb.waiting Verify.fired in
    sink passed (record kb { waiting = waiting })

module _ (codepoints : ℕ → Option ℕ) (char_modifier : List ℕ) where
  unfoldable pub decode : EventType → DomEvent → Modifiers → Modifiers × List Event × Bool
  decode keydown evt mods = Decoder.on_keydown codepoints char_modifier evt mods
  decode keypress evt mods = Decoder.on_keypress codepoints char_modifier evt mods
  decode keyup evt mods = Decoder.on_keyup codepoints char_modifier evt mods
  decode _ evt mods = (mods, [], false)

  -- `_handleKeyDown`, `_handleKeyPress` and `_handleKeyUp`; the answer is true if the browser may go
  -- on with the event.
  unfoldable pub handle :
      EventType → DomEvent → Keyboard → Option (Keyboard × List (ℕ × Bool) × Bool)
  unfolding decode feed
  handle type evt kb =
      if kb.focused
      then (do
        let (mods, events, suppress) = decode type evt kb.mods
        r ← feed events (record kb { mods = mods })
        some (r.0, r.1, not suppress))
      else some (kb, [], true)

-- `_allKeysUp`, when the window loses the focus
unfoldable pub all_keys_up : Keyboard → Option (Keyboard × List (ℕ × Bool))
unfolding feed
all_keys_up kb = feed Decoder.release_all kb
