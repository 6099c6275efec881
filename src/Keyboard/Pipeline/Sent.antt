-- ===== src/Keyboard/Pipeline/Sent.antt =====
-- That `_handleRfbEvent` of statics/include/input.js gets nothing that it cannot send.
use routercenter_old.Prelude.{
  ℕ, ◌≡◌, refl, Bool, true, false, Option, none, some, List, [], ◌∷◌, ◌++◌, ◌==◌, if◌then◌else◌,
  arith, Option-cases, inl, inr,
}
use mathlib.Core.Path.{subst}
use routercenter_old.Prelude.All.{All, All-append}
use routercenter_old.Keyboard.Event.{
  Event, EventType, keydown, keypress, keyup, releaseall, stall, lookup_keysym,
}
use routercenter_old.Keyboard.Track.{
  Entry, track, track_all, on_keydown, on_keypress, on_keyup, take_entry, copies, ups, all_ups,
  key_up, ignores, last_entry, or_new,
}
use routercenter_old.Keyboard.Track.Once.{
  can_be_sent, all_can_be_sent, all_can_be_sent-append, all_can_be_sent-track_all,
}
use routercenter_old.Keyboard.Escape.{made_up, made_up_all, escape_modifiers, escape_all}
use routercenter_old.Keyboard.Pipeline.{Keyboard, rfb_event, rfb_events, sink, is_down}

abbrev pub NotZero : ℕ → Type 0
NotZero k = (k == 0) ≡ false

-- No modifier to be let go of is 0, which is no key symbol.
abbrev pub Named : Option (List ℕ) → Type 0
Named none = Unit
Named (some mods) = All NotZero mods

abbrev pub AllNamed : List Event → Type 0
AllNamed = All (λ e. Named e.escape)

copies-Named : (evt : Event) (ks : List ℕ) → Named evt.escape → AllNamed (copies evt ks)
unfolding copies
copies-Named evt [] h = tt
copies-Named evt (k ∷ ks) h = (h, copies-Named evt ks h)

ups-Named : (ks : List ℕ) → AllNamed (ups ks)
unfolding ups key_up
ups-Named [] = tt
ups-Named (k ∷ ks) = (tt, ups-Named ks)

all_ups-Named : (es : List Entry) → AllNamed (all_ups es)
unfolding all_ups
all_ups-Named [] = tt
all_ups-Named (e ∷ es) =
    All-append _ (ups e.keysyms) (all_ups es) (ups-Named e.keysyms) (all_ups-Named es)

on_keyup-Named : (evt : Event) (es : List Entry) → Named evt.escape → AllNamed (on_keyup evt es).1
unfolding on_keyup
on_keyup-Named evt es h = elim (Option-cases (take_entry evt.key_id es)) [
  | inl n ↦ rw (n, on_keyup) tt
  | inr ((item, rest), m) ↦ rw (m, on_keyup) (copies-Named evt item.keysyms h)
]

on_keydown-Named :
    (evt : Event) (es : List Entry) → Named evt.escape → AllNamed (on_keydown evt es).1
unfolding on_keydown
on_keydown-Named evt es h = elim (Option-cases evt.keysym) [
  | inl n ↦ rw (n, on_keydown) tt
  | inr (k, e) ↦ rw (e, on_keydown) (h, tt)
]

if_Named :
    (b : Bool) (x y : List Entry) (e : Event)
    → Named e.escape
    → AllNamed (if◌then◌else◌ {A = List Entry × List Event} b (x, []) (y, e ∷ [])).1
if_Named true x y e h = tt
if_Named false x y e h = (h, tt)

on_keypress-Named :
    (evt : Event) (es : List Entry) → Named evt.escape → AllNamed (on_keypress evt es).1
unfolding on_keypress
on_keypress-Named evt es h = elim (Option-cases evt.keysym) [
  | inl n ↦ rw (n, on_keypress) tt
  | inr (k, e) ↦
      rw (e, on_keypress)
        (if_Named (ignores (last_entry (or_new evt.key_id es))) _ _ (record evt { type = keydown })
          h)
]

track-Named : (es : List Entry) (evt : Event) → Named evt.escape → AllNamed (track es evt).1
unfolding track
track-Named es evt h = by_type evt.type refl
  where
    by_type : (t : EventType) → evt.type ≡ t → AllNamed (track es evt).1
    by_type keydown t = rw (t, track) (on_keydown-Named evt es h)
    by_type keypress t = rw (t, track) (on_keypress-Named evt es h)
    by_type keyup t = rw (t, track) (on_keyup-Named evt es h)
    by_type releaseall t = rw (t, track) (all_ups-Named es)
    by_type stall t = rw (t, track) tt

track_all-Named :
    (es : List Entry) (evts : List Event) → AllNamed evts → AllNamed (track_all es evts).1
unfolding track_all
track_all-Named es [] h = tt
track_all-Named es (evt ∷ evts) h =
    All-append _ (track es evt).1 (track_all (track es evt).0 evts).1 (track-Named es evt h.0)
      (track_all-Named (track es evt).0 evts h.1)

all_can_be_sent-made_up :
    (mods : List ℕ)
    → All NotZero mods
    → (all_can_be_sent (made_up_all keyup mods) ≡ true)
      × (all_can_be_sent (made_up_all keydown mods) ≡ true)
unfolding all_can_be_sent can_be_sent made_up_all made_up lookup_keysym
all_can_be_sent-made_up [] h = (refl, refl)
all_can_be_sent-made_up (m ∷ mods) h =
    let (up, down) = all_can_be_sent-made_up mods h.1 in
    (ground (arith, up, h.0), ground (arith, down, h.0))

all_can_be_sent-escaped :
    (evt : Event) (mods : List ℕ)
    → can_be_sent evt ≡ true
    → All NotZero mods
    → all_can_be_sent (made_up_all keyup mods ++ evt ∷ made_up_all keydown mods) ≡ true
unfolding all_can_be_sent
all_can_be_sent-escaped evt mods c h =
    let (up, down) = all_can_be_sent-made_up mods h in rw (all_can_be_sent-append, up, c, down) refl

all_can_be_sent-escape_modifiers :
    (evt : Event)
    → can_be_sent evt ≡ true
    → Named evt.escape
    → all_can_be_sent (escape_modifiers evt) ≡ true
unfolding escape_modifiers
all_can_be_sent-escape_modifiers evt c h = by_type evt.type refl
  where
    alone : all_can_be_sent (evt ∷ []) ≡ true
    alone = unfold all_can_be_sent in ground (arith, c)

    by_type : (t : EventType) → evt.type ≡ t → all_can_be_sent (escape_modifiers evt) ≡ true
    by_type keydown t = elim (Option-cases evt.escape) [
      | inl n ↦ rw (t, n, escape_modifiers) alone
      | inr (mods, e) ↦
          rw (t, e, escape_modifiers) (all_can_be_sent-escaped evt mods c (subst Named e h))
    ]
    by_type keypress t = rw (t, escape_modifiers) alone
    by_type keyup t = rw (t, escape_modifiers) alone
    by_type releaseall t = rw (t, escape_modifiers) alone
    by_type stall t = rw (t, escape_modifiers) alone

all_can_be_sent-escape_all :
    (es : List Event)
    → all_can_be_sent es ≡ true
    → AllNamed es
    → all_can_be_sent (escape_all es) ≡ true
unfolding escape_all all_can_be_sent
all_can_be_sent-escape_all [] c h = refl
all_can_be_sent-escape_all (e ∷ es) c h =
    let first : can_be_sent e ≡ true = ground (arith, c) in
    let rest : all_can_be_sent es ≡ true = ground (arith, c) in
    rw
      (
        all_can_be_sent-append,
        all_can_be_sent-escape_modifiers e first h.0,
        all_can_be_sent-escape_all es rest h.1,
      )
      refl

rfb_event_sends : (e : Event) → can_be_sent e ≡ true → (k : ℕ × Bool) × (rfb_event e ≡ some k)
unfolding rfb_event can_be_sent
rfb_event_sends e c = elim (Option-cases e.keysym) [
  | inl n ↦ ground (arith, c, n)
  | inr (k, s) ↦ ((k, is_down e.type), rw s refl)
]

rfb_events_send :
    (es : List Event)
    → all_can_be_sent es ≡ true
    → (ks : List (ℕ × Bool)) × (rfb_events es ≡ some ks)
unfolding rfb_events all_can_be_sent
rfb_events_send [] c = ([], refl)
rfb_events_send (e ∷ es) c =
    let first : can_be_sent e ≡ true = ground (arith, c) in
    let rest : all_can_be_sent es ≡ true = ground (arith, c) in
    let (k, one) = rfb_event_sends e first in
    let (ks, more) = rfb_events_send es rest in (k ∷ ks, rw (one, more, rfb_events) refl)

-- Whatever events come through the delay, if none of them has a modifier to let go of that is 0:
-- every event that the tracking and the escaping of modifiers make of them has a key symbol, so
-- that the handler at the end throws at none.
pub sink_sends :
    (events : List Event) (kb : Keyboard)
    → AllNamed events
    → (ks : List (ℕ × Bool)) × (sink events kb
        ≡ some (record kb { entries = (track_all kb.entries events).0 }, ks))
unfolding sink
sink_sends events kb h =
    let (ks, e) = rfb_events_send (escape_all (track_all kb.entries events).1) (
      all_can_be_sent-escape_all (track_all kb.entries events).1
        (all_can_be_sent-track_all events kb.entries) (track_all-Named kb.entries events h)) in
    (ks, rw (e, sink) refl)
