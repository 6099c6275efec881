-- ===== src/Display/Style.antt =====
-- The style in which the canvas of statics/include/display.js fills, and the copy that the code keeps of it.
use routercenter_old.Prelude.{
  ℕ, ◌≡◌, ◌∙◌, refl, sym, ap, Bool, true, false, ◌&&◌, Option, none, some, List, [], ◌∷◌, ◌==◌,
  if◌then◌else◌, Bool-cases, ==_iff, inl, inr, arith,
}
use routercenter_old.Display.{Display}

-- A red, green or blue in the text of a style; two missing ones are spelled alike.
abbrev same_part : Option ℕ → Option ℕ → Bool
same_part none none = true
same_part (some m) (some n) = m == n
same_part _ _ = false

unfoldable same_parts : List (Option ℕ) → List (Option ℕ) → Bool
same_parts [] [] = true
same_parts (m ∷ ms) (n ∷ ns) = same_part m n && same_parts ms ns
same_parts _ _ = false

-- Whether `_prevDrawStyle`, none if it is the empty text, is the new style.
unfoldable is_previous : Option (List (Option ℕ)) → List (Option ℕ) → Bool
unfolding same_parts
is_previous none style = false
is_previous (some previous) style = same_parts previous style

-- The canvas takes no notice of a style with a part that is no number.
abbrev pub whole : List (Option ℕ) → Bool
whole [] = true
whole (none ∷ style) = false
whole (some n ∷ style) = whole style

-- The end of `_setFillColor`.
unfoldable pub set_style : List (Option ℕ) → Display → Display
unfolding is_previous
set_style style s =
    let old = is_previous s.previous_style style in
    record s {
      previous_style = if old then s.previous_style else some style;
      fill_style = if old then s.fill_style else if whole style then style else s.fill_style;
    }

-- The copy, if there is one, is right.
abbrev pub RightCopy : Display → Type 0
RightCopy s = (style : List (Option ℕ)) → s.previous_style ≡ some style → s.fill_style ≡ style

same_part_iff : (m n : Option ℕ) → same_part m n ≡ true → m ≡ n
same_part_iff none none e = refl
same_part_iff (some m) (some n) e = ap some ((==_iff m n).0 e)
same_part_iff none (some n) e = absurd (ground (arith, e))
same_part_iff (some m) none e = absurd (ground (arith, e))

same_parts_iff : (ms ns : List (Option ℕ)) → same_parts ms ns ≡ true → ms ≡ ns
unfolding same_parts
same_parts_iff [] [] e = refl
same_parts_iff [] (n ∷ ns) e = absurd (ground (arith, e))
same_parts_iff (m ∷ ms) [] e = absurd (ground (arith, e))
same_parts_iff (m ∷ ms) (n ∷ ns) e =
    let one : same_part m n ≡ true = ground (arith, e) in
    let more : same_parts ms ns ≡ true = ground (arith, e) in
    rw (same_part_iff m n one, same_parts_iff ms ns more) refl

is_previous_iff :
    (o : Option (List (Option ℕ))) (style : List (Option ℕ))
    → is_previous o style ≡ true
    → o ≡ some style
unfolding is_previous
is_previous_iff none style e = absurd (ground (arith, e))
is_previous_iff (some previous) style e = ap some (same_parts_iff previous style e)

previous_set :
    (style : List (Option ℕ)) (s : Display) → (set_style style s).previous_style ≡ some style
unfolding set_style
previous_set style s = elim (Bool-cases (is_previous s.previous_style style)) [
  | inl e ↦ rw (e, set_style) (is_previous_iff s.previous_style style e)
  | inr e ↦ rw (e, set_style) refl
]

or_nothing : Option (List (Option ℕ)) → List (Option ℕ)
or_nothing none = []
or_nothing (some style) = style

-- The style that is set is the canvas's then.
pub style_set :
    (style : List (Option ℕ)) (s : Display)
    → whole style ≡ true
    → RightCopy s
    → (set_style style s).fill_style ≡ style
unfolding set_style
style_set style s w h = elim (Bool-cases (is_previous s.previous_style style)) [
  | inl e ↦ rw (e, set_style) (h style (is_previous_iff s.previous_style style e))
  | inr e ↦ rw (e, w, set_style) refl
]

pub RightCopy-set_style :
    (style : List (Option ℕ)) (s : Display)
    → whole style ≡ true
    → RightCopy s
    → RightCopy (set_style style s)
unfolding or_nothing
RightCopy-set_style style s w h other e =
    style_set style s w h ∙ ap or_nothing (sym (previous_set style s) ∙ e)

same_part_refl : (m : Option ℕ) → same_part m m ≡ true
same_part_refl none = refl
same_part_refl (some m) = (==_iff m m).1 refl

same_parts_refl : (ms : List (Option ℕ)) → same_parts ms ms ≡ true
unfolding same_parts
same_parts_refl [] = refl
same_parts_refl (m ∷ ms) = rw (same_part_refl m, same_parts_refl ms) refl

is_previous_refl :
    (o : Option (List (Option ℕ))) (style : List (Option ℕ))
    → o ≡ some style
    → is_previous o style ≡ true
unfolding is_previous
is_previous_refl o style e = rw e (same_parts_refl style)

-- The style of the copy is not set again.
pub set_style_again :
    (style : List (Option ℕ)) (s : Display) → s.previous_style ≡ some style → set_style style s ≡ s
unfolding set_style
set_style_again style s e = rw (is_previous_refl s.previous_style style e, set_style) refl
