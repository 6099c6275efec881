-- ===== src/Keyboard/Modifiers/Sync.antt =====
-- What `sync` does to the modifiers, and what the events that it makes up tell a listener.
use routercenter_old.Prelude.{
  ℕ, ◌≡◌, refl, Bool, true, false, Option, none, some, List, [], ◌∷◌, ◌++◌, if◌then◌else◌, arith,
}
use routercenter_old.Keyboard.Xk
use routercenter_old.Keyboard.Event.{DomEvent, Event, keydown, keyup}
use routercenter_old.Keyboard.Modifiers.{
  Modifiers, sync, sync_events, synced, differs, set_key, is_key,
}

-- What a flag of an event says of a modifier key: nothing, if it is missing or if the event is one
-- of that key itself.
abbrev pub told : Option Bool → Option ℕ → ℕ → Bool → Bool
told none keysym k was = was
told (some flag) keysym k was = if is_key keysym k then was else flag

unfoldable pub told_by : DomEvent → Option ℕ → Modifiers → Modifiers
told_by evt keysym s = record {
  control = told evt.ctrl_key keysym Xk.control_l s.control;
  alt = told evt.alt_key keysym Xk.alt_l s.alt;
  alt_graph = told evt.alt_graph_key keysym Xk.iso_level3_shift s.alt_graph;
  shift = told evt.shift_key keysym Xk.shift_l s.shift;
  meta = told evt.meta_key keysym Xk.meta_l s.meta;
}

-- A listener that keeps the modifiers by the key events it hears.
unfoldable pub hear : Modifiers → Event → Modifiers
hear s e = elim e.keysym [
  | none ↦ s
  | some k ↦ elim e.type [ keydown ↦ set_key k true s | keyup ↦ set_key k false s | _ ↦ s ]
]

unfoldable pub hear_all : Modifiers → List Event → Modifiers
hear_all s [] = s
hear_all s (e ∷ es) = hear_all (hear s e) es

hear_all-append :
    (s : Modifiers) (es fs : List Event) → hear_all s (es ++ fs) ≡ hear_all (hear_all s es) fs
unfolding hear_all
hear_all-append s [] fs = refl
hear_all-append s (e ∷ es) fs = hear_all-append (hear s e) es fs

synced-eq-told :
    (flag : Option Bool) (was : Bool) (keysym : Option ℕ) (k : ℕ)
    → synced flag was keysym k ≡ told flag keysym k was
unfolding synced differs
synced-eq-told none was keysym k = refl
synced-eq-told (some flag) was keysym k = ground arith

module _ (flag : Option Bool) (keysym : Option ℕ) (s : Modifiers) where
  hear-control :
      hear_all s (sync_events flag s.control keysym Xk.control_l)
      ≡ record s { control = told flag keysym Xk.control_l s.control }
  unfolding hear_all hear sync_events set_key
  hear-control = ground arith

  hear-alt :
      hear_all s (sync_events flag s.alt keysym Xk.alt_l)
      ≡ record s { alt = told flag keysym Xk.alt_l s.alt }
  unfolding hear_all hear sync_events set_key
  hear-alt = ground arith

  hear-alt_graph :
      hear_all s (sync_events flag s.alt_graph keysym Xk.iso_level3_shift)
      ≡ record s { alt_graph = told flag keysym Xk.iso_level3_shift s.alt_graph }
  unfolding hear_all hear sync_events set_key
  hear-alt_graph = ground arith

  hear-shift :
      hear_all s (sync_events flag s.shift keysym Xk.shift_l)
      ≡ record s { shift = told flag keysym Xk.shift_l s.shift }
  unfolding hear_all hear sync_events set_key
  hear-shift = ground arith

  hear-meta :
      hear_all s (sync_events flag s.meta keysym Xk.meta_l)
      ≡ record s { meta = told flag keysym Xk.meta_l s.meta }
  unfolding hear_all hear sync_events set_key
  hear-meta = ground arith

-- After `sync` every modifier stands as the event says, those that it says nothing of as before; and
-- the events that `sync` makes up bring a listener that was in step with the old state to exactly
-- the new one.
pub sync_lem :
    (evt : DomEvent) (keysym : Option ℕ) (s : Modifiers)
    → ((sync evt keysym s).0 ≡ told_by evt keysym s)
      × (hear_all s (sync evt keysym s).1 ≡ (sync evt keysym s).0)
unfolding sync told_by
sync_lem evt keysym s =
    let control = told evt.ctrl_key keysym Xk.control_l s.control in
    let alt = told evt.alt_key keysym Xk.alt_l s.alt in
    let alt_graph = told evt.alt_graph_key keysym Xk.iso_level3_shift s.alt_graph in
    let shift = told evt.shift_key keysym Xk.shift_l s.shift in
    let s1 = record s { control = control } in
    let s2 = record s1 { alt = alt } in
    let s3 = record s2 { alt_graph = alt_graph } in
    let s4 = record s3 { shift = shift } in
    (
      simp synced-eq-told,
      rw
          (
            hear_all-append,
            hear-control evt.ctrl_key keysym s,
            hear_all-append,
            hear-alt evt.alt_key keysym s1,
            hear_all-append,
            hear-alt_graph evt.alt_graph_key keysym s2,
            hear_all-append,
            hear-shift evt.shift_key keysym s3,
            hear-meta evt.meta_key keysym s4,
          )
          (simp synced-eq-told),
    )

-- A flag that has been followed differs no more.
settled :
    (flag : Option Bool) (was : Bool) (keysym : Option ℕ) (k : ℕ)
    → sync_events flag (synced flag was keysym k) keysym k ≡ []
unfolding sync_events synced differs
settled none was keysym k = refl
settled (some flag) was keysym k = ground arith

synced-synced :
    (flag : Option Bool) (was : Bool) (keysym : Option ℕ) (k : ℕ)
    → synced flag (synced flag was keysym k) keysym k ≡ synced flag was keysym k
unfolding synced differs
synced-synced none was keysym k = refl
synced-synced (some flag) was keysym k = ground arith

-- A second `sync` by the same event makes up no event and changes nothing.
sync-sync :
    (evt : DomEvent) (keysym : Option ℕ) (s : Modifiers)
    → sync evt keysym (sync evt keysym s).0 ≡ ((sync evt keysym s).0, [])
unfolding sync
sync-sync evt keysym s = simp (settled, synced-synced)
