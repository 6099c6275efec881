-- ===== src/Vt100/Text.antt =====
-- Plain text that is written to the terminal.
use routercenter_old.Prelude.{
  ℕ, zero, suc, ◌+◌, ◌-◌, ◌≤◌, ◌<◌, ◌≡◌, refl, ap, ◌∙◌, Bool, true, false, ◌&&◌, some, List, [],
  ◌∷◌, length, get_elem?, leb, arith,
}
use routercenter_old.Vt100.{Terminal, set_range, set_row, put_char, may_scroll, scrolls, addch}
use routercenter_old.Vt100.Grid.{length-set_range}
use routercenter_old.Vt100.Write.{write, write_char, in_state}

abbrev pub all_plain : List ℕ → Bool
all_plain [] = true
all_plain (ch ∷ chs) = (leb 32 ch && leb ch 126) && all_plain chs

-- A line with `chs` over its slots from the column on.
abbrev pub overlay : ℕ → List ℕ → List ℕ → List ℕ
overlay c [] line = line
overlay c (v ∷ vs) [] = []
overlay zero (v ∷ vs) (x ∷ xs) = v ∷ overlay zero vs xs
overlay (suc c) (v ∷ vs) (x ∷ xs) = x ∷ overlay c (v ∷ vs) xs

overlay-set_range :
    (c v : ℕ) (vs line : List ℕ)
    → c < length line
    → overlay (suc c) vs (set_range c 1 v line) ≡ overlay c (v ∷ vs) line
unfolding set_range
overlay-set_range zero v [] (x ∷ xs) h = refl
overlay-set_range zero v (w ∷ vs) (x ∷ xs) h = refl
overlay-set_range (suc c) v [] (x ∷ xs) h =
    ap (λ l. x ∷ l) (overlay-set_range c v [] xs (omega arith))
overlay-set_range (suc c) v (w ∷ vs) (x ∷ xs) h =
    ap (λ l. x ∷ l) (overlay-set_range c v (w ∷ vs) xs (omega arith))
overlay-set_range zero v vs [] h = absurd (omega arith)
overlay-set_range (suc c) v vs [] h = absurd (omega arith)

get_elem?-set_row :
    (r c v : ℕ) (rows : List (List ℕ)) {line : List ℕ}
    → get_elem? rows r ≡ some line
    → get_elem? (set_row r c 1 v rows) r ≡ some (set_range c 1 v line)
unfolding set_row
get_elem?-set_row zero c v (l ∷ rows) e = ground arith
get_elem?-set_row (suc r) c v (l ∷ rows) e = get_elem?-set_row r c v rows e
get_elem?-set_row zero c v [] e = ground arith
get_elem?-set_row (suc r) c v [] e = ground arith

abbrev put_here : ℕ → Terminal → Terminal
put_here ch t = record t {
  text = set_row t.row t.col 1 ch t.text;
  attrs = set_row t.row t.col 1 t.c_attr t.attrs;
  col = t.col + 1;
}

may_scroll-stays : (t : Terminal) → t.row < t.ht → may_scroll t ≡ t
unfolding may_scroll scrolls
may_scroll-stays t r =
    let stays : t.row + 1 - t.ht ≡ 0 = omega (arith, r) in
    let same : t.row - 0 ≡ t.row = omega arith in
    rw (stays, scrolls) (ap (λ n. record t { row = n }) same)

put_char-fits :
    (ch : ℕ) (t : Terminal) → t.row < t.ht → t.col < t.wd → put_char ch t.c_attr t ≡ put_here ch t
unfolding put_char may_scroll
put_char-fits ch t r c =
    let fits : leb t.wd t.col ≡ false = ground arith in
    let put : Terminal → Terminal = λ u. record u {
      text = set_row u.row t.col 1 ch u.text;
      attrs = set_row u.row t.col 1 t.c_attr u.attrs;
      col = t.col + 1;
    } in
    rw fits (ap put (may_scroll-stays t r))

-- A plain char with room in its row goes to the cursor's cell, and the cursor goes one on.
write_char-plain :
    (ch : ℕ) (t : Terminal)
    → (leb 32 ch && leb ch 126) ≡ true
    → t.esc_state ≡ 0
    → t.row < t.ht
    → t.col < t.wd
    → write_char ch t ≡ put_here ch t
unfolding write_char in_state addch
write_char-plain ch t p e r c = ground (arith, put_char-fits ch t r c)

-- Plain text, written outside an escape sequence and short enough for the rest of the row in which the
-- cursor stands, lies over that row from the cursor's column on, as the row was before elsewhere; the
-- cursor stands behind it in the same row.
pub write-text :
    (chs : List ℕ) (t : Terminal) {line : List ℕ}
    → all_plain chs ≡ true
    → t.esc_state ≡ 0
    → t.row < t.ht
    → t.col + length chs ≤ t.wd
    → get_elem? t.text t.row ≡ some line
    → length line ≡ t.wd
    → (get_elem? (write chs t).text t.row ≡ some (overlay t.col chs line))
      × ((write chs t).row ≡ t.row)
      × ((write chs t).col ≡ t.col + length chs)
unfolding write
write-text [] t p e r c found full = (found, refl, omega arith)
write-text (ch ∷ chs) t {line} p e r c found full =
    let one = write_char-plain ch t (ground arith) e r (omega (arith, c)) in
    let wide = length-set_range t.col 1 ch line (omega (arith, c, full)) in
    let (there, row, col) =
      write-text chs (put_here ch t) (ground arith) e r (omega (arith, c))
        (get_elem?-set_row t.row t.col ch t.text found) (wide ∙ full) in
    let next : t.col + 1 ≡ suc t.col = omega arith in
    let laid = overlay-set_range t.col ch chs line (omega (arith, c, full)) in
    (
      ap (λ u. get_elem? (write chs u).text t.row) one
          ∙ (there
              ∙ (ap (λ n. some (overlay n chs (set_range t.col 1 ch line))) next ∙ ap some laid)),
      ap (λ u. (write chs u).row) one ∙ row,
      ap (λ u. (write chs u).col) one ∙ (col ∙ omega arith),
    )
