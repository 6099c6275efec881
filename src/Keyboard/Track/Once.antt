-- ===== src/Keyboard/Track/Once.antt =====
-- A key that goes down is sent once, and every event that is sent can be sent.
use routercenter_old.Prelude.{
  ℕ, ◌≡◌, refl, ap, Bool, true, false, ◌&&◌, Option, none, some, List, [], ◌∷◌, ◌++◌, if◌then◌else◌,
  arith, Option-cases, inl, inr,
}
use routercenter_old.Keyboard.Event.{
  Event, EventType, stall, keydown, keypress, keyup, releaseall, KeyId,
}
use routercenter_old.Keyboard.Track.{
  Entry, take_entry, on_keydown, on_keypress, on_keyup, or_new, copies, key_up, ups, all_ups, track,
  track_all, ignores, last_entry, opened, change_last, add_keysym, is_new_key, new_entry,
}

last_entry_snoc : (es : List Entry) (x : Entry) → last_entry (es ++ x ∷ []) ≡ some x
unfolding last_entry
last_entry_snoc [] x = refl
last_entry_snoc (e ∷ []) x = refl
last_entry_snoc (e ∷ f ∷ es) x = last_entry_snoc (f ∷ es) x

change_last_snoc :
    (g : Entry → Entry) (es : List Entry) (x : Entry)
    → change_last g (es ++ x ∷ []) ≡ es ++ g x ∷ []
unfolding change_last
change_last_snoc g [] x = refl
change_last_snoc g (e ∷ []) x = refl
change_last_snoc g (e ∷ f ∷ es) x = ap (λ l. e ∷ l) (change_last_snoc g (f ∷ es) x)

or_new_snoc :
    (id : Option KeyId) (es : List Entry) (x : Entry) → or_new id (es ++ x ∷ []) ≡ es ++ x ∷ []
unfolding or_new
or_new_snoc id [] x = refl
or_new_snoc id (e ∷ es) x = refl

abbrev decided_by : Option ℕ → Event → Event → Event
decided_by none down press = record press { type = keydown }
decided_by (some k) down press = down

-- The entry that a new key opens; it expects no keypress if the key symbol is known.
abbrev entry_for : Option ℕ → Option KeyId → Entry
entry_for none id = new_entry id
entry_for (some j) id = record (add_keysym j (new_entry id)) { ignore_key_press = true }

module _ (es : List Entry) where
  keypress_snoc :
      (press : Event) (k : ℕ) (x : Entry)
      → press.keysym ≡ some k
      → (on_keypress press (es ++ x ∷ [])).1
        ≡ (if x.ignore_key_press then [] else record press { type = keydown } ∷ [])
  unfolding on_keypress ignores
  keypress_snoc press k x s = ground (arith, or_new_snoc press.key_id es x, last_entry_snoc es x)

  keydown_snoc :
      (down : Event)
      → is_new_key down.key_id (last_entry es) ≡ true
      → (on_keydown down es).0 ≡ es ++ entry_for down.keysym down.key_id ∷ []
  unfolding on_keydown opened
  keydown_snoc down fresh = elim (Option-cases down.keysym) [
    | inl n ↦ ground arith
    | inr (j, e) ↦ ground (
      arith,
      change_last_snoc (λ f. record (add_keysym j f) { ignore_key_press = true }) es
          (new_entry down.key_id),
    )
  ]

track-keydown :
    (es : List Entry) (evt : Event) → evt.type ≡ keydown → track es evt ≡ on_keydown evt es
unfolding track
track-keydown es evt t = ground arith

track-keypress :
    (es : List Entry) (evt : Event) → evt.type ≡ keypress → track es evt ≡ on_keypress evt es
unfolding track
track-keypress es evt t = ground arith

-- A key that is not known to be the one that went down last goes down, and a keypress with a key
-- symbol follows: one keydown is sent, the key's own if its key symbol was known at once, or else
-- one for the keypress's.
pub sent_once :
    (es : List Entry) (down press : Event) (k : ℕ)
    → down.type ≡ keydown
    → press.type ≡ keypress
    → press.keysym ≡ some k
    → is_new_key down.key_id (last_entry es) ≡ true
    → (track_all es (down ∷ press ∷ [])).1 ≡ decided_by down.keysym down press ∷ []
unfolding track_all
sent_once es down press k d p s fresh =
    rw
      (
        track-keydown es down d,
        keydown_snoc es down fresh,
        track-keypress (es ++ entry_for down.keysym down.key_id ∷ []) press p,
        keypress_snoc es press k (entry_for down.keysym down.key_id) s,
      )
      (unfold on_keydown new_entry add_keysym in ground arith)

-- An event that a server can be sent: a key symbol, down or up.
unfoldable pub can_be_sent : Event → Bool
can_be_sent e = elim e.keysym [
  | none ↦ false
  | some k ↦ elim e.type [ keydown ↦ true | keyup ↦ true | _ ↦ false ]
]

unfoldable pub all_can_be_sent : List Event → Bool
unfolding can_be_sent
all_can_be_sent [] = true
all_can_be_sent (e ∷ es) = can_be_sent e && all_can_be_sent es

pub all_can_be_sent-append :
    (es fs : List Event) → all_can_be_sent (es ++ fs) ≡ (all_can_be_sent es && all_can_be_sent fs)
unfolding all_can_be_sent
all_can_be_sent-append [] fs = refl
all_can_be_sent-append (e ∷ es) fs = ground (arith, all_can_be_sent-append es fs)

all_can_be_sent-copies :
    (evt : Event) (ks : List ℕ) → evt.type ≡ keyup → all_can_be_sent (copies evt ks) ≡ true
unfolding all_can_be_sent copies
all_can_be_sent-copies evt [] t = refl
all_can_be_sent-copies evt (k ∷ ks) t = ground (arith, all_can_be_sent-copies evt ks t)

all_can_be_sent-ups : (ks : List ℕ) → all_can_be_sent (ups ks) ≡ true
unfolding all_can_be_sent ups key_up
all_can_be_sent-ups [] = refl
all_can_be_sent-ups (k ∷ ks) = all_can_be_sent-ups ks

all_can_be_sent-all_ups : (es : List Entry) → all_can_be_sent (all_ups es) ≡ true
unfolding all_ups
all_can_be_sent-all_ups [] = unfold all_can_be_sent in refl
all_can_be_sent-all_ups (e ∷ es) =
    rw (all_can_be_sent-append, all_can_be_sent-ups, all_can_be_sent-all_ups es)

all_can_be_sent-on_keyup :
    (es : List Entry) (evt : Event) → evt.type ≡ keyup → all_can_be_sent (on_keyup evt es).1 ≡ true
unfolding on_keyup
all_can_be_sent-on_keyup es evt t = elim (Option-cases (take_entry evt.key_id es)) [
  | inl n ↦ rw (n, on_keyup) (unfold all_can_be_sent in refl)
  | inr ((item, rest), m) ↦ rw (m, on_keyup) (all_can_be_sent-copies evt item.keysyms t)
]

all_can_be_sent-track : (es : List Entry) (evt : Event) → all_can_be_sent (track es evt).1 ≡ true
unfolding track
all_can_be_sent-track es evt = by_type evt.type refl
  where
    by_type : (t : EventType) → evt.type ≡ t → all_can_be_sent (track es evt).1 ≡ true
    by_type keydown t = unfold on_keydown all_can_be_sent in ground arith
    by_type keypress t = unfold on_keypress all_can_be_sent in ground arith
    by_type keyup t = rw (t, track) (all_can_be_sent-on_keyup es evt t)
    by_type releaseall t = rw (t, track) (all_can_be_sent-all_ups es)
    by_type stall t = rw (t, track) (unfold all_can_be_sent in refl)

-- Whatever comes, everything that `TrackKeyState` passes on is a keydown or a keyup that has a key
-- symbol.
pub all_can_be_sent-track_all :
    (evts : List Event) (es : List Entry) → all_can_be_sent (track_all es evts).1 ≡ true
unfolding track_all
all_can_be_sent-track_all [] es = unfold all_can_be_sent in refl
all_can_be_sent-track_all (evt ∷ evts) es = rw (
  all_can_be_sent-append,
  all_can_be_sent-track es evt,
  all_can_be_sent-track_all evts (track es evt).0,
)
