-- ===== src/Keyboard/Track/Pressed.antt =====
-- The keys that a server holds down for the key events it is sent, and the client's record of them.
use routercenter_old.Prelude.{
  ℕ, ◌≡◌, refl, ap, ◌∙◌, Bool, true, false, ◌||◌, Option, none, some, List, [], ◌∷◌, ◌++◌, ◌==◌,
  if◌then◌else◌, arith, Bool-cases, inl, inr, Option-cases,
}
use routercenter_old.Keyboard.Event.{Event, keydown, keyup, KeyId}
use routercenter_old.Keyboard.Track.{
  Entry, insert_keysym, last_entry, change_last, take_match, take_last, take_entry, new_entry,
  opened, add_keysym, or_new, same_id, is_new_key,
}

-- Which key symbols are down.
abbrev pub Pressed : Type 0
Pressed = ℕ → Bool

abbrev pub nothing : Pressed
nothing k = false

abbrev pub press : Option ℕ → Bool → Pressed → Pressed
press none down p = p
press (some j) down p = λ k. if j == k then down else p k

-- The server hears a keydown or a keyup of a key symbol.
unfoldable pub serve : Pressed → Event → Pressed
serve p evt = elim evt.type [
  | keydown ↦ press evt.keysym true p
  | keyup ↦ press evt.keysym false p
  | _ ↦ p
]

unfoldable pub serve_all : Pressed → List Event → Pressed
serve_all p [] = p
serve_all p (e ∷ es) = serve_all (serve p e) es

pub serve_all-append :
    (p : Pressed) (es fs : List Event) → serve_all p (es ++ fs) ≡ serve_all (serve_all p es) fs
unfolding serve_all
serve_all-append p [] fs = refl
serve_all-append p (e ∷ es) fs = serve_all-append (serve p e) es fs

unfoldable pub has : ℕ → List ℕ → Bool
has k [] = false
has k (j ∷ js) = j == k || has k js

-- Whether some entry has the key symbol.
unfoldable pub tracked : ℕ → List Entry → Bool
unfolding has
tracked k [] = false
tracked k (e ∷ es) = has k e.keysyms || tracked k es

has-insert_keysym : (k j : ℕ) (js : List ℕ) → has k (insert_keysym j js) ≡ (j == k || has k js)
unfolding has insert_keysym
has-insert_keysym k j [] = refl
has-insert_keysym k j (i ∷ js) = ground (arith, has-insert_keysym k j js)

tracked-append :
    (k : ℕ) (es fs : List Entry) → tracked k (es ++ fs) ≡ (tracked k es || tracked k fs)
unfolding tracked
tracked-append k [] fs = refl
tracked-append k (e ∷ es) fs = ground (arith, tracked-append k es fs)

pub tracked-new_entry :
    (k : ℕ) (id : Option KeyId) (es : List Entry)
    → tracked k (es ++ new_entry id ∷ []) ≡ tracked k es
unfolding tracked new_entry
tracked-new_entry k id [] = refl
tracked-new_entry k id (e ∷ es) = ap (λ b. has k e.keysyms || b) (tracked-new_entry k id es)

-- Another key symbol in the last entry is tracked, and all others as before.
tracked-change_last :
    (k j : ℕ) (g : Entry → Entry) (e : Entry) (es : List Entry)
    → ((f : Entry) → (g f).keysyms ≡ insert_keysym j f.keysyms)
    → tracked k (change_last g (e ∷ es)) ≡ (j == k || tracked k (e ∷ es))
unfolding tracked change_last
tracked-change_last k j g e [] h = rw (h e) (ground (arith, has-insert_keysym k j e.keysyms))
tracked-change_last k j g e (f ∷ es) h = ground (arith, tracked-change_last k j g f es h)

pub tracked-opened :
    (k j : ℕ) (g : Entry → Entry) (id : Option KeyId) (es : List Entry)
    → ((f : Entry) → (g f).keysyms ≡ insert_keysym j f.keysyms)
    → tracked k (change_last g (opened id es)) ≡ (j == k || tracked k es)
unfolding opened
tracked-opened k j g id [] h =
    unfold last_entry is_new_key new_entry tracked has in
    tracked-change_last k j g (new_entry id) [] h
tracked-opened k j g id (e ∷ es) h = elim (Bool-cases (is_new_key id (last_entry (e ∷ es)))) [
  | inr c ↦ rw c (tracked-change_last k j g e es h)
  | inl c ↦ rw c (
      tracked-change_last k j g e (es ++ new_entry id ∷ []) h
      ∙ ap (λ b. j == k || b) (tracked-new_entry k id (e ∷ es)))
]

pub tracked-or_new :
    (k j : ℕ) (id : Option KeyId) (es : List Entry)
    → tracked k (change_last (add_keysym j) (or_new id es)) ≡ (j == k || tracked k es)
unfolding or_new
tracked-or_new k j id [] =
    unfold new_entry tracked has in
    tracked-change_last k j (add_keysym j) (new_entry id) [] (λ f. unfold add_keysym in refl)
tracked-or_new k j id (e ∷ es) =
    tracked-change_last k j (add_keysym j) e es (λ f. unfold add_keysym in refl)

-- A new entry has no key symbol.
pub tracked-opened_self :
    (k : ℕ) (id : Option KeyId) (es : List Entry) → tracked k (opened id es) ≡ tracked k es
unfolding opened
tracked-opened_self k id es = elim (Bool-cases (is_new_key id (last_entry es))) [
  | inl c ↦ rw c (tracked-new_entry k id es)
  | inr c ↦ rw c
]

pub tracked-or_new_self :
    (k : ℕ) (id : Option KeyId) (es : List Entry) → tracked k (or_new id es) ≡ tracked k es
unfolding or_new
tracked-or_new_self k id [] = tracked-new_entry k id []
tracked-or_new_self k id (e ∷ es) = refl

-- An entry that is taken out had its key symbols, and the others stay.
tracked-take_match :
    (k : ℕ) (id : Option KeyId) (es : List Entry) {x : Entry} {rest : List Entry}
    → take_match id es ≡ some (x, rest)
    → tracked k es ≡ (has k x.keysyms || tracked k rest)
unfolding take_match tracked
tracked-take_match k id [] e = ground arith
tracked-take_match k id (y ∷ es) e = elim (Bool-cases (same_id y.key_id id)) [
  | inl c ↦ ground arith
  | inr c ↦ elim (Option-cases (take_match id es)) [
    | inl n ↦ absurd (ground arith)
    | inr ((x', rest'), m) ↦ ground (arith, tracked-take_match k id es m)
  ]
]

tracked-take_last :
    (k : ℕ) (es : List Entry) {x : Entry} {rest : List Entry}
    → take_last es ≡ some (x, rest)
    → tracked k es ≡ (has k x.keysyms || tracked k rest)
unfolding take_last tracked
tracked-take_last k [] e = ground arith
tracked-take_last k (y ∷ []) e = ground arith
tracked-take_last k (y ∷ z ∷ es) e = elim (Option-cases (take_last (z ∷ es))) [
  | inl n ↦ absurd (ground arith)
  | inr ((x', rest'), m) ↦ ground (arith, tracked-take_last k (z ∷ es) m)
]

pub tracked-take_entry :
    (k : ℕ) (id : Option KeyId) (es : List Entry) {x : Entry} {rest : List Entry}
    → take_entry id es ≡ some (x, rest)
    → tracked k es ≡ (has k x.keysyms || tracked k rest)
unfolding take_entry
tracked-take_entry k id es {x} {rest} e = elim (Option-cases (take_match id es)) [
  | inl n ↦ tracked-take_last k es {x = x} {rest = rest} (ground arith)
  | inr (found, m) ↦
      let same : found ≡ (x, rest) = ground arith in tracked-take_match k id es (m ∙ ap some same)
]
