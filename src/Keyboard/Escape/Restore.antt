-- ===== src/Keyboard/Escape/Restore.antt =====
-- What the server has down after an escaped event.
use routercenter_old.Prelude.{
  ℕ, ◌≡◌, refl, true, false, some, List, [], ◌∷◌, ◌++◌, ◌==◌, if◌then◌else◌, arith,
}
use routercenter_old.Keyboard.Event.{Event, keydown, keyup, lookup_keysym}
use routercenter_old.Keyboard.Escape.{escape_modifiers, made_up_all}
use routercenter_old.Keyboard.Track.Pressed.{
  Pressed, press, serve, serve_all, serve_all-append, has,
}

serve-made_up_keyup :
    (p : Pressed) (k : ℕ) (mods : List ℕ)
    → (k == 0) ≡ false
    → serve_all p (made_up_all keyup mods) k ≡ (if has k mods then false else p k)
unfolding serve_all serve made_up_all has lookup_keysym
serve-made_up_keyup p k [] z = refl
serve-made_up_keyup p k (m ∷ mods) z =
    ground (arith, serve-made_up_keyup (press (lookup_keysym (some m)) false p) k mods z)

serve-made_up_keydown :
    (p : Pressed) (k : ℕ) (mods : List ℕ)
    → (k == 0) ≡ false
    → serve_all p (made_up_all keydown mods) k ≡ (if has k mods then true else p k)
unfolding serve_all serve made_up_all has lookup_keysym
serve-made_up_keydown p k [] z = refl
serve-made_up_keydown p k (m ∷ mods) z =
    ground (arith, serve-made_up_keydown (press (lookup_keysym (some m)) true p) k mods z)

-- The keydown of a character that was made with modifiers: the server hears it when it has none of
-- those modifiers down and every other key symbol as before; afterwards it has each of them down,
-- and every other key symbol as the keydown alone would have left it. (No key symbol is 0.)
pub escape_modifiers_lem :
    (p : Pressed) (evt : Event) (mods : List ℕ) (k : ℕ)
    → evt.type ≡ keydown
    → evt.escape ≡ some mods
    → (k == 0) ≡ false
    → (before : List Event) × (after : List Event) × (escape_modifiers evt ≡ before ++ evt ∷ after)
      × (serve_all p before k ≡ (if has k mods then false else p k))
      × (serve_all p (escape_modifiers evt) k ≡ (if has k mods then true else serve p evt k))
unfolding escape_modifiers
escape_modifiers_lem p evt mods k t e z =
    let before = made_up_all keyup mods in
    let after = made_up_all keydown mods in
    let escaped : escape_modifiers evt ≡ before ++ evt ∷ after = ground arith in
    (
      before,
      after,
      escaped,
      serve-made_up_keyup p k mods z,
      rw (escaped, serve_all-append)
          (unfold serve_all serve in
            ground (
              arith,
              serve-made_up_keydown (serve (serve_all p before) evt) k mods z,
              serve-made_up_keyup p k mods z,
            )),
    )
