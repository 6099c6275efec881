-- ===== src/Keyboard/Track.antt =====
-- `TrackKeyState` of statics/include/keyboard.js: the keys that are down, each with the key symbols
-- that have been sent for it.
pub mod Pressed
pub mod Release
pub mod Once
mod Tests
use routercenter_old.Prelude.{
  ℕ, ◌≡◌, Bool, true, false, not, ◌||◌, Option, none, some, List, [], ◌∷◌, ◌++◌, ltb, ◌==◌,
  if◌then◌else◌,
}
use routercenter_old.Keyboard.Event.{
  Event, EventType, stall, keydown, keypress, keyup, releaseall, KeyId, KeyId-discrete,
}

pub record Entry : Type 0 where
  pub key_id : Option KeyId
  pub keysyms : List ℕ
  pub ignore_key_press : Bool

-- `last.keysyms[k] = …`: the object's integer keys are visited in ascending order.
unfoldable pub insert_keysym : ℕ → List ℕ → List ℕ
insert_keysym k [] = k ∷ []
insert_keysym k (j ∷ js) =
    if k == j then j ∷ js else if ltb k j then k ∷ j ∷ js else j ∷ insert_keysym k js

-- `a.keyId === b.keyId`; two missing ids are equal.
unfoldable pub same_id : Option KeyId → Option KeyId → Bool
same_id a b = elim (KeyId-discrete a b) [ yes _ ↦ true | no _ ↦ false ]

unfoldable pub last_entry : List Entry → Option Entry
last_entry [] = none
last_entry (e ∷ []) = some e
last_entry (e ∷ f ∷ es) = last_entry (f ∷ es)

-- `last` is an object of the list, so a change to it is a change to the list's end.
unfoldable pub change_last : (Entry → Entry) → List Entry → List Entry
change_last g [] = []
change_last g (e ∷ []) = g e ∷ []
change_last g (e ∷ f ∷ es) = e ∷ change_last g (f ∷ es)

-- The entry at the index found, and the list without it.
unfoldable pub take_match : Option KeyId → List Entry → Option (Entry × List Entry)
take_match id [] = none
take_match id (e ∷ es) =
    if same_id e.key_id id
    then some (e, es)
    else elim (take_match id es) [ none ↦ none | some (x, rest) ↦ some (x, e ∷ rest) ]

unfoldable pub take_last : List Entry → Option (Entry × List Entry)
take_last [] = none
take_last (e ∷ []) = some (e, [])
take_last (e ∷ f ∷ es) = elim (take_last (f ∷ es)) [
  | none ↦ none
  | some (x, rest) ↦ some (x, e ∷ rest)
]

-- The first entry of the key, or the last entry of all.
unfoldable pub take_entry : Option KeyId → List Entry → Option (Entry × List Entry)
take_entry id es = elim (take_match id es) [ none ↦ take_last es | some x ↦ some x ]

unfoldable pub new_entry : Option KeyId → Entry
new_entry id = record { key_id = id; keysyms = []; ignore_key_press = false }

abbrev is_none : Option KeyId → Bool
is_none none = true
is_none (some k) = false

-- Whether a keydown opens an entry: it is not known to be of the key that came last.
unfoldable pub is_new_key : Option KeyId → Option Entry → Bool
is_new_key id none = true
is_new_key id (some last) = is_none id || not (same_id last.key_id id)

unfoldable pub opened : Option KeyId → List Entry → List Entry
opened id es = if is_new_key id (last_entry es) then es ++ new_entry id ∷ [] else es

unfoldable pub add_keysym : ℕ → Entry → Entry
add_keysym k e = record e { keysyms = insert_keysym k e.keysyms }

unfoldable pub on_keydown : Event → List Entry → List Entry × List Event
on_keydown evt es = elim evt.keysym [
  | none ↦ (opened evt.key_id es, [])
  | some k ↦ (
    change_last (λ e. record (add_keysym k e) { ignore_key_press = true }) (opened evt.key_id es),
    evt ∷ [],
  )
]

-- A keypress without a key before it opens an entry too.
unfoldable pub or_new : Option KeyId → List Entry → List Entry
or_new id [] = new_entry id ∷ []
or_new id (e ∷ es) = e ∷ es

unfoldable pub ignores : Option Entry → Bool
ignores none = false
ignores (some e) = e.ignore_key_press

unfoldable pub on_keypress : Event → List Entry → List Entry × List Event
on_keypress evt es =
    let es' = or_new evt.key_id es in
    elim evt.keysym [
      | none ↦ (es', [])
      | some k ↦
          if ignores (last_entry es')
          then (es', [])
          else (change_last (add_keysym k) es', record evt { type = keydown } ∷ [])
    ]

-- A copy of the event for each key symbol of the entry.
unfoldable pub copies : Event → List ℕ → List Event
copies evt [] = []
copies evt (k ∷ ks) = record evt { keysym = some k } ∷ copies evt ks

unfoldable pub on_keyup : Event → List Entry → List Entry × List Event
on_keyup evt es = elim (take_entry evt.key_id es) [
  | none ↦ (es, [])
  | some (item, rest) ↦ (rest, copies evt item.keysyms)
]

-- What `releaseAll` sends: `keyId: 0` for every key symbol.
unfoldable pub key_up : ℕ → Event
key_up k = record { type = keyup; key_id = some (KeyId.code 0); keysym = some k; escape = none }

unfoldable pub ups : List ℕ → List Event
ups [] = []
ups (k ∷ ks) = key_up k ∷ ups ks

unfoldable pub all_ups : List Entry → List Event
all_ups [] = []
all_ups (e ∷ es) = ups e.keysyms ++ all_ups es

-- An event of another type passes nothing on.
unfoldable pub track : List Entry → Event → List Entry × List Event
track es evt = elim evt.type [
  | keydown ↦ on_keydown evt es
  | keypress ↦ on_keypress evt es
  | keyup ↦ on_keyup evt es
  | releaseall ↦ ([], all_ups es)
  | stall ↦ (es, [])
]

unfoldable pub track_all : List Entry → List Event → List Entry × List Event
track_all es [] = (es, [])
track_all es (evt ∷ evts) =
    let (es', out) = track es evt in let (es'', outs) = track_all es' evts in (es'', out ++ outs)
