-- ===== src/Vt100.antt =====
-- statics/telnet/VT100.js: the screen of the terminal, its cursor and its attributes; Vt100/Write.antt
-- has the interpreter of escape sequences. A char is its code.
pub mod Write
pub mod Grid
pub mod Bounds
pub mod Colours
pub mod Cursor
pub mod Text
pub mod Keeps
pub mod Screen
pub mod Sequences
mod Tests
use routercenter_old.Prelude.{
  ℕ, zero, suc, ◌+◌, ◌-◌, ◌%◌, Bool, true, false, List, [], ◌∷◌, ◌++◌, replicate, ltb, leb, ◌==◌,
  if◌then◌else◌,
}
use Prim.Native.Nat.{bit_or, bit_and}

pub record Attr : Type 0 where
  pub mode : ℕ
  pub fg : ℕ
  pub bg : ℕ

-- `esc_state_` keeps the source's numbers: 0 none, 1 after ESC, 2 after CSI, 3 in its parameters,
-- 4 after CSI [, 5 and 6 in a special mode.
pub record Terminal : Type 0 where
  pub wd : ℕ
  pub ht : ℕ
  pub row : ℕ
  pub col : ℕ
  pub scrolled : ℕ
  pub bkgd : Attr
  pub c_attr : Attr
  pub text : List (List ℕ)
  pub attrs : List (List Attr)
  pub esc_state : ℕ
  pub csi_parms : List ℕ

abbrev pub blank : ℕ
blank = 32

-- The loop that stores `v` in the `count` slots from `from` on.
unfoldable pub set_range {ℓ} : {A : Type ℓ} → ℕ → ℕ → A → List A → List A
set_range zero zero v xs = xs
set_range zero (suc n) v [] = v ∷ set_range zero n v []
set_range zero (suc n) v (x ∷ xs) = v ∷ set_range zero n v xs
set_range (suc i) n v [] = []
set_range (suc i) n v (x ∷ xs) = x ∷ set_range i n v xs

-- A row that is changed from the column on, and rows that are changed whole from a row on.
unfoldable pub set_row {ℓ} : {A : Type ℓ} → ℕ → ℕ → ℕ → A → List (List A) → List (List A)
set_row r from count v [] = []
set_row zero from count v (line ∷ rows) = set_range from count v line ∷ rows
set_row (suc r) from count v (line ∷ rows) = line ∷ set_row r from count v rows

unfoldable pub set_rows {ℓ} : {A : Type ℓ} → ℕ → ℕ → A → List (List A) → List (List A)
set_rows r wd v [] = []
set_rows zero wd v (line ∷ rows) = set_range 0 wd v line ∷ set_rows zero wd v rows
set_rows (suc r) wd v (line ∷ rows) = line ∷ set_rows r wd v rows

-- The first row becomes the last one, and is blanked.
unfoldable pub rotate {ℓ} : {A : Type ℓ} → ℕ → A → List (List A) → List (List A)
rotate wd v [] = []
rotate wd v (line ∷ rows) = rows ++ set_range 0 wd v line ∷ []

unfoldable pub scroll : Terminal → Terminal
scroll t = record t {
  scrolled = t.scrolled + 1;
  text = rotate t.wd blank t.text;
  attrs = rotate t.wd t.bkgd t.attrs;
}

unfoldable pub scrolls : ℕ → Terminal → Terminal
scrolls zero t = t
scrolls (suc n) t = scrolls n (scroll t)

-- The loop runs once for each row that the cursor is below the last one.
unfoldable pub may_scroll : Terminal → Terminal
may_scroll t = let beyond = t.row + 1 - t.ht in record (scrolls beyond t) { row = t.row - beyond }

unfoldable pub clrtoeol : Terminal → Terminal
clrtoeol t = if leb t.ht t.row then t else record t {
  text = set_row t.row t.col (t.wd - t.col) blank t.text;
  attrs = set_row t.row t.col (t.wd - t.col) t.bkgd t.attrs;
}

unfoldable pub clrtobot : Terminal → Terminal
clrtobot t =
    let u = clrtoeol t in
    record u {
      text = set_rows (t.row + 1) t.wd blank u.text;
      attrs = set_rows (t.row + 1) t.wd t.bkgd u.attrs;
    }

unfoldable pub clear : Terminal → Terminal
clear t = record t {
  row = 0;
  col = 0;
  scrolled = 0;
  text = set_rows 0 t.wd blank t.text;
  attrs = set_rows 0 t.wd t.bkgd t.attrs;
}

unfoldable pub clearpos : ℕ → ℕ → Terminal → Terminal
clearpos row col t = if leb t.ht row then t else if leb t.wd col then t else record t {
  text = set_row row col 1 blank t.text;
  attrs = set_row row col 1 t.bkgd t.attrs;
}

-- The numbers that the callers pass stop at 0 where the source's become negative and are set to 0.
unfoldable pub move : ℕ → ℕ → Terminal → Terminal
move r c t = record t {
  row = if leb t.ht r then t.ht - 1 else r;
  col = if leb t.wd c then t.wd - 1 else c;
}

-- Writes a char at the cursor, in the next row if the cursor is behind the last column.
unfoldable pub put_char : ℕ → Attr → Terminal → Terminal
unfolding may_scroll
put_char ch attr t =
    let wrapped = leb t.wd t.col in
    let cc = if wrapped then 0 else t.col in
    let u = may_scroll (record t { row = if wrapped then t.row + 1 else t.row }) in
    record u {
      text = set_row u.row cc 1 ch u.text;
      attrs = set_row u.row cc 1 attr u.attrs;
      col = cc + 1;
    }

-- The tab stops are 8 columns apart.
unfoldable pub tab : Terminal → Terminal
unfolding may_scroll
tab t =
    let u = may_scroll t in
    let cc = t.col + (8 - t.col % 8) in
    if leb t.wd cc then record u { row = u.row + 1; col = cc - t.wd } else record u { col = cc }

-- `addch(ch)`, with the current attributes. The row that '\n' clears is cleared from the old column on.
unfoldable pub addch : ℕ → Terminal → Terminal
unfolding may_scroll clrtoeol put_char tab
addch ch t =
    if ch == 8
    then record t { col = t.col - 1 }
    else if ch == 10
    then record (may_scroll (clrtoeol (record t { row = t.row + 1 }))) { col = 0 }
    else if ch == 13
    then record (may_scroll t) { col = 0 }
    else if ch == 9
    then tab t
    else put_char ch t.c_attr t

unfoldable pub addstr : List ℕ → Terminal → Terminal
addstr [] t = t
addstr (ch ∷ chs) t = addstr chs (addch ch t)

-- 63 is `ATTR_FLAGS_`, all six flags.
unfoldable pub attron : ℕ → Terminal → Terminal
attron a t = record t { c_attr = record t.c_attr { mode = bit_or t.c_attr.mode (bit_and a 63) } }

unfoldable pub attrset : ℕ → Terminal → Terminal
attrset a t = record t { c_attr = record t.c_attr { mode = a } }

unfoldable pub fgset : ℕ → Terminal → Terminal
fgset fg t = record t { c_attr = record t.c_attr { fg = fg } }

unfoldable pub bgset : ℕ → Terminal → Terminal
bgset bg t = record t { c_attr = record t.c_attr { bg = bg } }

unfoldable pub bkgdset : Attr → Terminal → Terminal
bkgdset a t = record t { bkgd = a }

unfoldable pub standend : Terminal → Terminal
unfolding attrset
standend t = attrset 0 t

unfoldable pub standout : Terminal → Terminal
unfolding attron
standout t = attron 32 t

abbrev pub normal : Attr
normal = record { mode = 0; fg = 7; bg = 0 }

-- The constructor: the arrays are made without content, here with 0, and filled by `clear`; the
-- parameters are undefined before the first control sequence.
abbrev pub unfilled : ℕ → ℕ → Terminal
unfilled wd ht = record {
  wd = wd;
  ht = ht;
  row = 0;
  col = 0;
  scrolled = 0;
  bkgd = normal;
  c_attr = normal;
  text = replicate ht (replicate wd 0);
  attrs = replicate ht (replicate wd normal);
  esc_state = 0;
  csi_parms = [];
}

unfoldable pub new : ℕ → ℕ → Terminal
unfolding clear
new wd ht = clear (unfilled wd ht)
