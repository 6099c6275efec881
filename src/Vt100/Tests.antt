-- ===== src/Vt100/Tests.antt =====
-- The theorems of the terminal at concrete screens and chars.
use routercenter_old.Prelude.{
  ◌==◌, if◌then◌else◌, ℕ, List, replicate, get_elem?, some, ◌+◌, ◌-◌, ◌≡◌, refl, [], ◌∷◌, ◌++◌, map,
  arith,
}
use routercenter_old.Vt100.{Terminal, clear, set_rows, set_range, new}
use routercenter_old.Vt100.Text.{overlay, write-text}
use routercenter_old.Vt100.Colours.{standard_colour, rendition-colour}
use routercenter_old.Vt100.Cursor.{write-position}
use Prim.Native.Nat.{min}
use routercenter_old.Vt100.Write.{rendition, write, with_state}
use routercenter_old.Vt100.Bounds.{IsScreen}
use routercenter_old.Vt100.Screen.{write-IsScreen, new-IsScreen}
use routercenter_old.Vt100.Sequences.{reading, value, further, write-parameters, unknown_escape}

abbrev small : Terminal
small = new 10 3

-- A tab, ESC [ 2 J and a letter.
write-IsScreen_example : IsScreen 10 3 (write (9 ∷ 27 ∷ 91 ∷ 50 ∷ 74 ∷ 98 ∷ []) small)
write-IsScreen_example =
    write-IsScreen 10 3 (9 ∷ 27 ∷ 91 ∷ 50 ∷ 74 ∷ 98 ∷ []) small (omega arith) (omega arith)
      (new-IsScreen 10 3 (omega arith) (omega arith))

-- ESC [ 12;5
write-parameters_example :
    write (27 ∷ 91 ∷ 49 ∷ ((50 ∷ []) ++ further ((53 ∷ []) ∷ []))) small
    ≡ reading (value 0 (49 ∷ 50 ∷ []) ∷ map (value 0) ((53 ∷ []) ∷ [])) small
write-parameters_example =
    write-parameters 49 (50 ∷ []) ((53 ∷ []) ∷ []) small refl refl (omega arith)

-- ESC c, the code that resets a terminal, and text behind it
unknown_escape_example : write (27 ∷ 99 ∷ 108 ∷ 115 ∷ []) small ≡ with_state 1 small
unknown_escape_example = unknown_escape (99 ∷ 108 ∷ 115 ∷ []) small refl

abbrev line : List ℕ
line = replicate 10 32

outside : small.esc_state ≡ 0
unfolding new clear
outside = refl

first_line : get_elem? small.text small.row ≡ some line
unfolding new clear set_rows set_range
first_line = refl

size : (small.ht ≡ 3) × (small.wd ≡ 10) × (small.row ≡ 0) × (small.col ≡ 0)
unfolding new clear
size = (refl, refl, refl, refl)

-- The text "ok" on the empty first line
write-text_example :
    (get_elem? (write (111 ∷ 107 ∷ []) small).text small.row
      ≡ some (overlay small.col (111 ∷ 107 ∷ []) line))
    × ((write (111 ∷ 107 ∷ []) small).row ≡ small.row)
    × ((write (111 ∷ 107 ∷ []) small).col ≡ small.col + 2)
write-text_example =
    write-text (111 ∷ 107 ∷ []) small refl outside (omega (arith, size)) (omega (arith, size))
      first_line (omega (arith, size))

-- ESC [ 2;15H on 3 rows of 10 columns
write-position_example :
    ((write ((27 ∷ 91 ∷ 50 ∷ ([] ++ further ((49 ∷ 53 ∷ []) ∷ []))) ++ 72 ∷ []) small).row
      ≡ min (value 0 (50 ∷ []) - 1) (small.ht - 1))
    × ((write ((27 ∷ 91 ∷ 50 ∷ ([] ++ further ((49 ∷ 53 ∷ []) ∷ []))) ++ 72 ∷ []) small).col
        ≡ min (value 0 (49 ∷ 53 ∷ []) - 1) (small.wd - 1))
    × ((write ((27 ∷ 91 ∷ 50 ∷ ([] ++ further ((49 ∷ 53 ∷ []) ∷ []))) ++ 72 ∷ []) small).text
        ≡ small.text)
    × ((write ((27 ∷ 91 ∷ 50 ∷ ([] ++ further ((49 ∷ 53 ∷ []) ∷ []))) ++ 72 ∷ []) small).attrs
        ≡ small.attrs)
    × ((write ((27 ∷ 91 ∷ 50 ∷ ([] ++ further ((49 ∷ 53 ∷ []) ∷ []))) ++ 72 ∷ []) small).c_attr
        ≡ small.c_attr)
    × ((write ((27 ∷ 91 ∷ 50 ∷ ([] ++ further ((49 ∷ 53 ∷ []) ∷ []))) ++ 72 ∷ []) small).esc_state
        ≡ 0)
write-position_example =
    write-position 50 [] 49 (53 ∷ []) small refl refl (omega (arith, size)) (omega (arith, size))

-- 34 and 44, which should both be blue
rendition-colour_example :
    ((rendition (30 + 4) small).c_attr.fg ≡ standard_colour 4)
    × ((rendition (40 + 4) small).c_attr.bg ≡ (
        if 4 == 3
        then small.c_attr.bg
        else if 4 == 4
        then standard_colour 3
        else standard_colour 4))
rendition-colour_example = rendition-colour 4 small (omega arith)
