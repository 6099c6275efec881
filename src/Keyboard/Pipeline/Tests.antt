-- ===== src/Keyboard/Pipeline/Tests.antt =====
-- A key is typed: what the browser reports, and what is sent.
use routercenter_old.Prelude.{ℕ, ◌≡◌, refl, Bool, true, false, some, none, Option, List, [], ◌∷◌}
use routercenter_old.Keyboard.Event.{DomEvent, Event, EventType, keydown, keypress, keyup, KeyId}
use routercenter_old.Keyboard.Modifiers
use routercenter_old.Keyboard.Event
use routercenter_old.Keyboard.Pipeline
use native.Mathlib.Decide.{ℕ_discrete}
use routercenter_old.Keyboard.Decoder
use routercenter_old.Keyboard.Verify
use routercenter_old.Keyboard.Track
use routercenter_old.Keyboard.Escape
use routercenter_old.Keyboard.Keysym
use routercenter_old.Keyboard.Pipeline.{Keyboard, new, handle, sink}
use routercenter_old.Keyboard.Pipeline.Sent.{sink_sends}
use routercenter_old.Keyboard.Track.{track_all}

abbrev dom : Bool → ℕ → Option ℕ → DomEvent
dom of_keypress c char = record {
  char = none;
  char_code = char;
  key_code = some c;
  key = none;
  which = none;
  of_keypress = of_keypress;
  ctrl_key = some false;
  alt_key = some false;
  alt_graph_key = none;
  shift_key = some false;
  meta_key = some false;
}

-- A table where every code point is its own key symbol, on a platform with no char modifier.
abbrev reported : EventType → DomEvent → Keyboard → Option (Keyboard × List (ℕ × Bool) × Bool)
reported t evt kb = handle (λ u. some u) [] t evt kb

-- What is sent for what the browser reports in turn, if nothing is thrown.
sent_for : List (EventType × DomEvent) → Keyboard → Option (List (List (ℕ × Bool)))
sent_for [] kb = some []
sent_for ((type, evt) ∷ evts) kb = elim (reported type evt kb) [
  | none ↦ none
  | some (kb', out, _) ↦ elim (sent_for evts kb') [ none ↦ none | some outs ↦ some (out ∷ outs) ]
]

abbrev typed : List (EventType × DomEvent)
typed =
    (keydown, dom false 65 none)
    ∷ (keypress, dom true 97 (some 97))
    ∷ (keyup, dom false 65 none)
    ∷ []

-- The keydown is left to the browser, the keypress sends the character down, and the keyup sends it
-- up again.
sent_for-typed : sent_for typed new ≡ some ([] ∷ ((97, true) ∷ []) ∷ ((97, false) ∷ []) ∷ [])
unfolding Decoder.decoded Decoder.escape_of Decoder.is_one_of Decoder.is_shift Decoder.is_special
    Decoder.on_keydown Decoder.on_keypress Decoder.on_keyup Decoder.process Decoder.same_text
    Decoder.stall_event Escape.escape_all Escape.escape_modifiers Escape.made_up Escape.made_up_all
    Event.KeyId-discrete Event.codepoint_of Event.from_unicode Event.get_key Event.get_keysym
    Event.key_of Event.keysym_of_char Event.keysym_of_code Event.lookup_keysym
    Keysym.keysym_from_key_code Keysym.non_character_key Keysym.substitute_codepoint
    Modifiers.active_char_modifier Modifiers.all_down Modifiers.differs Modifiers.get_key_state
    Modifiers.has_char_modifier Modifiers.has_shortcut_modifier Modifiers.none_down
    Modifiers.set_key Modifiers.sync Modifiers.sync_event Modifiers.sync_events
    Modifiers.sync_key_event Modifiers.synced Pipeline.decode Pipeline.feed Pipeline.handle
    Pipeline.new Pipeline.rfb_event Pipeline.rfb_events Pipeline.sink Track.add_keysym Track.all_ups
    Track.change_last Track.copies Track.ignores Track.insert_keysym Track.is_new_key Track.key_up
    Track.last_entry Track.new_entry Track.on_keydown Track.on_keypress Track.on_keyup Track.opened
    Track.or_new Track.same_id Track.take_entry Track.take_last Track.take_match Track.track
    Track.track_all Track.ups Verify.drain Verify.is_keydown Verify.is_keypress Verify.is_stall
    Verify.merge Verify.nothing_waits Verify.verify sent_for ℕ_discrete
sent_for-typed = refl

-- Alt and ctrl are let go of round the character that they gave.
abbrev escaped : List Event
escaped =
    record {
      type = keydown;
      key_id = some (KeyId.code 81);
      keysym = some 64;
      escape = some (1 ∷ 2 ∷ []);
    }
    ∷ record { type = keyup; key_id = some (KeyId.code 81); keysym = none; escape = none }
    ∷ []

sink_sends_example :
    (ks : List (ℕ × Bool)) × (sink escaped new
      ≡ some (record new { entries = (track_all new.entries escaped).0 }, ks))
sink_sends_example = sink_sends escaped new ((refl, (refl, tt)), (tt, tt))
