-- ===== src/Keyboard/Modifiers.antt =====
-- `ModifierSync` of statics/include/keyboard.js: which modifiers the client believes to be down, and
-- the key events that bring it in line with what a DOM event says.
pub mod Sync
mod Tests
use routercenter_old.Prelude.{
  ℕ, ◌+◌, ◌≡◌, Bool, true, false, not, ◌&&◌, Option, none, some, List, [], ◌∷◌, ◌++◌, length, ltb,
  ◌==◌, if◌then◌else◌,
}
use routercenter_old.Keyboard.Xk
use routercenter_old.Keyboard.Event.{DomEvent, Event, EventType, keydown, keyup, get_keysym}

pub data Platform : Type 0 where
  mac windows linux other : Platform

-- The modifier that gives characters, where the caller names none.
unfoldable pub default_char_modifier : Platform → List ℕ
default_char_modifier mac = Xk.alt_l ∷ []
default_char_modifier windows = Xk.alt_l ∷ Xk.control_l ∷ []
default_char_modifier linux = Xk.iso_level3_shift ∷ []
default_char_modifier other = []

-- `state`, a field for each key.
pub record Modifiers : Type 0 where
  pub control : Bool
  pub alt : Bool
  pub alt_graph : Bool
  pub shift : Bool
  pub meta : Bool

unfoldable pub none_down : Modifiers
none_down = record { control = false; alt = false; alt_graph = false; shift = false; meta = false }

-- `state[k] = down`, if there is such a field
unfoldable pub set_key : ℕ → Bool → Modifiers → Modifiers
set_key k down s =
    if k == Xk.control_l
    then record s { control = down }
    else if k == Xk.alt_l
    then record s { alt = down }
    else if k == Xk.iso_level3_shift
    then record s { alt_graph = down }
    else if k == Xk.shift_l
    then record s { shift = down }
    else if k == Xk.meta_l
    then record s { meta = down }
    else s

-- `state[k]`, where a missing field is false
unfoldable pub get_key_state : ℕ → Modifiers → Bool
get_key_state k s =
    if k == Xk.control_l
    then s.control
    else if k == Xk.alt_l
    then s.alt
    else if k == Xk.iso_level3_shift
    then s.alt_graph
    else if k == Xk.shift_l
    then s.shift
    else if k == Xk.meta_l
    then s.meta
    else false

abbrev same_bool : Bool → Bool → Bool
same_bool true b = b
same_bool false b = not b

abbrev is_key : Option ℕ → ℕ → Bool
is_key none k = false
is_key (some j) k = j == k

-- One test of `sync`: the event has the flag, it differs, and the event is not of that key itself.
unfoldable pub differs : Option Bool → Bool → Option ℕ → ℕ → Bool
differs none was keysym k = false
differs (some flag) was keysym k = not (same_bool flag was) && not (is_key keysym k)

unfoldable pub synced : Option Bool → Bool → Option ℕ → ℕ → Bool
unfolding differs
synced none was keysym k = was
synced (some flag) was keysym k = if differs (some flag) was keysym k then flag else was

-- `syncKey`, with the new state of the key
unfoldable pub sync_event : ℕ → Bool → Event
sync_event k down = record {
  type = if down then keydown else keyup;
  key_id = none;
  keysym = some k;
  escape = none;
}

unfoldable pub sync_events : Option Bool → Bool → Option ℕ → ℕ → List Event
unfolding synced differs sync_event
sync_events flag was keysym k =
    if differs flag was keysym k then sync_event k (synced flag was keysym k) ∷ [] else []

unfoldable pub sync : DomEvent → Option ℕ → Modifiers → Modifiers × List Event
sync evt keysym s = (
  record {
    control = synced evt.ctrl_key s.control keysym Xk.control_l;
    alt = synced evt.alt_key s.alt keysym Xk.alt_l;
    alt_graph = synced evt.alt_graph_key s.alt_graph keysym Xk.iso_level3_shift;
    shift = synced evt.shift_key s.shift keysym Xk.shift_l;
    meta = synced evt.meta_key s.meta keysym Xk.meta_l;
  },
  sync_events evt.ctrl_key s.control keysym Xk.control_l
      ++ (sync_events evt.alt_key s.alt keysym Xk.alt_l
          ++ (sync_events evt.alt_graph_key s.alt_graph keysym Xk.iso_level3_shift
              ++ (sync_events evt.shift_key s.shift keysym Xk.shift_l
                  ++ sync_events evt.meta_key s.meta keysym Xk.meta_l))),
)

abbrev apply_key : Option ℕ → Bool → Modifiers → Modifiers
apply_key none down s = s
apply_key (some k) down s = set_key k down s

-- `syncKeyEvent`: first the key itself, then the others; and `syncAny`, for other events.
module _ (codepoints : ℕ → Option ℕ) where
  unfoldable pub sync_key_event : DomEvent → Bool → Modifiers → Modifiers × List Event
  unfolding sync set_key
  sync_key_event evt down s =
      let keysym = get_keysym codepoints evt in sync evt keysym (apply_key keysym down s)

unfoldable pub sync_any : DomEvent → Modifiers → Modifiers × List Event
unfolding sync
sync_any evt s = sync evt none s

unfoldable pub all_down : List ℕ → Modifiers → Bool
unfolding get_key_state
all_down [] s = true
all_down (k ∷ ks) s = get_key_state k s && all_down ks s

-- `hasCharModifier`
unfoldable pub has_char_modifier : List ℕ → Modifiers → Bool
unfolding all_down
has_char_modifier [] s = false
has_char_modifier (k ∷ ks) s = all_down (k ∷ ks) s

abbrev count_of : Bool → ℕ
count_of true = 1
count_of false = 0

-- `hasShortcutModifier`: shift is left out, and a char modifier's keys do not count when all are down.
unfoldable pub has_shortcut_modifier : List ℕ → Modifiers → Bool
unfolding has_char_modifier
has_shortcut_modifier char_modifier s =
    let mods = record s { shift = false } in
    let sum = count_of s.control + count_of s.alt + count_of s.alt_graph + count_of s.meta in
    if has_char_modifier char_modifier mods then ltb (length char_modifier) sum else ltb 0 sum

-- `activeCharModifier`
unfoldable pub active_char_modifier : List ℕ → Modifiers → Option (List ℕ)
unfolding has_char_modifier
active_char_modifier char_modifier s =
    if has_char_modifier char_modifier s then some char_modifier else none
