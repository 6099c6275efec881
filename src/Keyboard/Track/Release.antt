-- ===== src/Keyboard/Track/Release.antt =====
-- No key stays down at the server that the client has lost track of.
use routercenter_old.Prelude.{
  ℕ, ◌≡◌, refl, Bool, true, false, not, ◌||◌, some, List, [], ◌∷◌, ◌++◌, if◌then◌else◌, arith, inl,
  inr, Option-cases,
}
use routercenter_old.Keyboard.Event.{Event, EventType, stall, keydown, keypress, keyup, releaseall}
use routercenter_old.Keyboard.Track.{
  Entry, take_entry, on_keydown, on_keypress, on_keyup, copies, key_up, ups, all_ups, track,
  track_all, add_keysym,
}
use routercenter_old.Keyboard.Track.Pressed.{
  Pressed, nothing, press, serve, serve_all, serve_all-append, has, tracked, tracked-opened,
  tracked-or_new, tracked-take_entry, tracked-opened_self, tracked-or_new_self,
}

-- Copies of a keyup let go of each key symbol of theirs, and of no other.
pub serve_all-copies :
    (p : Pressed) (k : ℕ) (evt : Event) (ks : List ℕ)
    → evt.type ≡ keyup
    → serve_all p (copies evt ks) k ≡ (if has k ks then false else p k)
unfolding serve_all serve copies has
serve_all-copies p k evt [] e = refl
serve_all-copies p k evt (j ∷ ks) e =
    rw e (ground (arith, serve_all-copies (press (some j) false p) k evt ks e))

serve_all-ups :
    (p : Pressed) (k : ℕ) (ks : List ℕ) → serve_all p (ups ks) k ≡ (if has k ks then false else p k)
unfolding serve_all serve ups key_up has
serve_all-ups p k [] = refl
serve_all-ups p k (j ∷ ks) = ground (arith, serve_all-ups (press (some j) false p) k ks)

serve_all-all_ups :
    (p : Pressed) (k : ℕ) (es : List Entry)
    → serve_all p (all_ups es) k ≡ (if tracked k es then false else p k)
unfolding all_ups tracked serve_all
serve_all-all_ups p k [] = refl
serve_all-all_ups p k (e ∷ es) = rw serve_all-append (
    ground
      (arith, serve_all-all_ups (serve_all p (ups e.keysyms)) k es, serve_all-ups p k e.keysyms))

-- A key symbol that is down is tracked.
abbrev covered : ℕ → Pressed → List Entry → Bool
covered k p es = not (p k) || tracked k es

module _ (k : ℕ) (p : Pressed) (es : List Entry) (h : covered k p es ≡ true) (evt : Event) where
  keydown_covered :
      evt.type ≡ keydown
      → covered k (serve_all p (on_keydown evt es).1) (on_keydown evt es).0 ≡ true
  unfolding on_keydown serve_all serve
  keydown_covered t = elim (Option-cases evt.keysym) [
    | inl n ↦ rw (n, on_keydown) (ground (arith, tracked-opened_self k evt.key_id es))
    | inr (j, e) ↦ ground (
      arith,
      tracked-opened k j (λ f. record (add_keysym j f) { ignore_key_press = true }) evt.key_id es
          (λ f. unfold add_keysym in refl),
    )
  ]

  keypress_covered : covered k (serve_all p (on_keypress evt es).1) (on_keypress evt es).0 ≡ true
  unfolding on_keypress serve_all serve
  keypress_covered = elim (Option-cases evt.keysym) [
    | inl n ↦ rw (n, on_keypress) (ground (arith, tracked-or_new_self k evt.key_id es))
    | inr (j, e) ↦
        ground (arith, tracked-or_new_self k evt.key_id es, tracked-or_new k j evt.key_id es)
  ]

  keyup_covered :
      evt.type ≡ keyup → covered k (serve_all p (on_keyup evt es).1) (on_keyup evt es).0 ≡ true
  unfolding on_keyup serve_all
  keyup_covered t = elim (Option-cases (take_entry evt.key_id es)) [
    | inl n ↦ rw (n, on_keyup) h
    | inr ((item, rest), m) ↦
        rw (m, on_keyup)
          (ground
            (arith, serve_all-copies p k evt item.keysyms t, tracked-take_entry k evt.key_id es m))
  ]

  track-covered : covered k (serve_all p (track es evt).1) (track es evt).0 ≡ true
  unfolding track
  track-covered = by_type evt.type refl
    where
      by_type :
          (t : EventType)
          → evt.type ≡ t
          → covered k (serve_all p (track es evt).1) (track es evt).0 ≡ true
      by_type keydown t = rw (t, track) (keydown_covered t)
      by_type keypress t = rw (t, track) keypress_covered
      by_type keyup t = rw (t, track) (keyup_covered t)
      by_type releaseall t =
          rw (t, track) (unfold tracked in ground (arith, serve_all-all_ups p k es))
      by_type stall t = rw (t, track) (unfold serve_all in h)

track_all-covered :
    (k : ℕ) (evts : List Event) (p : Pressed) (es : List Entry)
    → covered k p es ≡ true
    → covered k (serve_all p (track_all es evts).1) (track_all es evts).0 ≡ true
unfolding track_all
track_all-covered k [] p es h = unfold serve_all in h
track_all-covered k (evt ∷ evts) p es h = rw serve_all-append (
    track_all-covered k evts (serve_all p (track es evt).1) (track es evt).0
      (track-covered k p es h evt))

-- Whatever events have come, in whatever order: every key symbol that is down at the server, which
-- had none down at first and has heard what the client sent, is tracked by the client.
pub track_all-tracked :
    (evts : List Event) (k : ℕ)
    → serve_all nothing (track_all [] evts).1 k ≡ true
    → tracked k (track_all [] evts).0 ≡ true
track_all-tracked evts k down = let c = track_all-covered k evts nothing [] refl in ground arith

-- A `releaseall` after any events, in whatever order, leaves no key symbol down at the server, and no
-- entry with the client.
pub releaseall_lem :
    (evts : List Event) (e : Event)
    → e.type ≡ releaseall
    → ((k : ℕ)
        → serve_all nothing ((track_all [] evts).1 ++ (track (track_all [] evts).0 e).1) k ≡ false)
      × ((track (track_all [] evts).0 e).0 ≡ [])
unfolding track
releaseall_lem evts e t =
    let es = (track_all [] evts).0 in
    let sent = (track_all [] evts).1 in
    (
      λ k.
          rw (serve_all-append, t, track)
            (ground (
              arith,
              serve_all-all_ups (serve_all nothing sent) k es,
              track_all-covered k evts nothing [] refl,
            )),
      rw (t, track),
    )
