-- ===== src/Display/Cursor/Size.antt =====
-- The size of the cursor's file of statics/include/display.js.
use routercenter_old.Prelude.{
  ℕ, zero, suc, ◌+◌, ◌*◌, ◌/◌, ◌%◌, ◌^◌, ◌≡◌, ◌≤◌, ◌<◌, refl, ap, ◌∙◌, Bool, true, false, ◌||◌,
  Option, none, some, List, [], ◌++◌, map, length, length-append, replicate, length-replicate, leb,
  if◌then◌else◌, arith,
}
use routercenter_old.Prelude.Array.{read}
use native.Mathlib.Nat.{mul-le-mul_left}
use routercenter_old.Display.Render.{byte}
use routercenter_old.Display.Cursor.{
  side, eighths, data_size, header, cell, both, row, rows, masks, cursor_file,
}

-- A list that is there, and its length.
pub record Sized (o : Option (List (Option ℕ))) (n : ℕ) : Type 0 where
  pub bytes : List (Option ℕ)
  pub there : o ≡ some bytes
  pub size : length bytes ≡ n

pub both-Sized :
    {o p : Option (List (Option ℕ))} {m n : ℕ} → Sized o m → Sized p n → Sized (both o p) (m + n)
both-Sized h k = record {
  bytes = h.bytes ++ k.bytes;
  there = rw (h.there, k.there) refl;
  size = length-append h.bytes k.bytes ∙ rw (h.size, k.size) refl;
}

sum-Sized : {o : Option (List (Option ℕ))} {m n : ℕ} → m ≡ n → Sized o m → Sized o n
sum-Sized e h = record { bytes = h.bytes; there = h.there; size = h.size ∙ e }

either-Sized :
    (b : Bool) {o p : Option (List (Option ℕ))} {n : ℕ}
    → Sized o n
    → Sized p n
    → Sized (if b then o else p) n
either-Sized true h k = h
either-Sized false h k = k

pub cell-Sized :
    (pixels mask : List (Option ℕ)) (w0 h0 x y : ℕ) → Sized (cell none pixels mask w0 h0 x y) 4
unfolding cell
cell-Sized pixels mask w0 h0 x y =
    either-Sized (leb w0 x || leb h0 y) (record { bytes = _; there = refl; size = refl })
      (record { bytes = _; there = refl; size = refl })

module _ (at : ℕ → ℕ → Option (List (Option ℕ))) (sized : (x y : ℕ) → Sized (at x y) 4) where
  pub row-Sized : (count x y : ℕ) → Sized (row at count x y) (count * 4)
  unfolding row
  row-Sized zero x y = record { bytes = []; there = refl; size = refl }
  row-Sized (suc count) x y =
      sum-Sized (omega arith) (both-Sized (sized x y) (row-Sized count (x + 1) y))

  pub rows-Sized : (n y : ℕ) → Sized (rows at n y) (y * (n * 4))
  unfolding rows
  rows-Sized n zero = record { bytes = []; there = refl; size = omega arith }
  rows-Sized n (suc y) = sum-Sized (omega arith) (both-Sized (row-Sized n 0 y) (rows-Sized n y))

pub length-masks : (n : ℕ) → length (masks n) ≡ n * eighths n + n * eighths n
unfolding masks
length-masks n =
    let zero_byte : Option ℕ = some 0 in
    length-append (replicate (n * eighths n) zero_byte) (replicate (n * eighths n) zero_byte)
    ∙ rw (length-replicate (n * eighths n) zero_byte) refl

-- The masks are at least as long as the header says, and just as long where a row is made of whole bytes.
masks_enough : (n : ℕ) → eighths (n * n) ≤ n * eighths n
masks_enough n = let le : n ≤ 8 * eighths n = omega arith in omega (arith, mul-le-mul_left n le)

masks_whole : (n : ℕ) → n % 8 ≡ 0 → eighths (n * n) ≡ n * eighths n
masks_whole n e = let same : n ≡ 8 * eighths n = omega arith in omega (arith, ap (λ m. n * m) same)

-- A number of four bytes in a file, the lowest first.
unfoldable pub number_at : ℕ → List (Option ℕ) → ℕ
number_at i bytes =
    byte (read bytes i)
    + 2 ^ 8 * byte (read bytes (i + 1))
    + 2 ^ 16 * byte (read bytes (i + 2))
    + 2 ^ 24 * byte (read bytes (i + 3))

le32_lem :
    (v : ℕ)
    → v < 2 ^ 32
    → v % 256
        + 2 ^ 8 * (v / 2 ^ 8 % 256)
        + 2 ^ 16 * (v / 2 ^ 16 % 256)
        + 2 ^ 24 * (v / 2 ^ 24 % 256)
      ≡ v
le32_lem v lt = omega arith

cursor_file-Sized :
    (pixels mask : List (Option ℕ)) (hotx hoty w0 h0 : ℕ)
    → let n = side w0 h0 in
      Sized
        (both (rows (cell none pixels mask w0 h0) n n) (some (masks n)))
        (n * (n * 4) + (n * eighths n + n * eighths n))
cursor_file-Sized pixels mask hotx hoty w0 h0 =
    let n = side w0 h0 in
    both-Sized (rows-Sized (cell none pixels mask w0 h0) (cell-Sized pixels mask w0 h0) n n)
      (record { bytes = masks n; there = refl; size = length-masks n })

-- A file of a cursor with `n` rows: the size of its data and where they begin, as the header says, and how
-- long it is.
pub record CursorFile (n : ℕ) (file : Option (List (Option ℕ))) : Type 0 where
  pub bytes : List (Option ℕ)
  pub there : file ≡ some bytes
  pub data_begin : number_at 18 bytes ≡ 22
  pub said : number_at 14 bytes ≡ data_size n
  pub enough : 22 + number_at 14 bytes ≤ length bytes
  pub exact : n % 8 ≡ 0 → 22 + number_at 14 bytes ≡ length bytes

-- In true colour every cursor has a file, whatever its pixels and mask. Its header says how many bytes of
-- data follow, from byte 22 on, when that number has 32 bits. At least as many follow, and exactly as many
-- when the number of its rows can be divided by eight.
pub cursor_file-CursorFile :
    (pixels mask : List (Option ℕ)) (hotx hoty w0 h0 : ℕ)
    → data_size (side w0 h0) < 2 ^ 32
    → CursorFile (side w0 h0) (cursor_file pixels mask hotx hoty w0 h0 none)
unfolding cursor_file header number_at
cursor_file-CursorFile pixels mask hotx hoty w0 h0 lt =
    let n = side w0 h0 in
    let h = cursor_file-Sized pixels mask hotx hoty w0 h0 in
    let said = le32_lem (data_size n) lt in
    record {
      bytes = map some (header n hotx hoty) ++ h.bytes;
      there = rw h.there refl;
      data_begin = refl;
      said = said;
      enough = rw said (omega (arith, h.size, masks_enough n));
      exact = λ e. rw said (omega (arith, h.size, masks_whole n e));
    }
