-- ===== src/Display/Cursor.antt =====
-- statics/include/display.js: the cursor, a file of one icon with 32 bits for each pixel. The numbers of
-- its header are not negative. The address with the file in base64 is left to the page.
pub mod Pixels
pub mod Size
use routercenter_old.Prelude.{
  ℕ, zero, suc, ◌+◌, ◌-◌, ◌*◌, ◌/◌, ◌%◌, ◌^◌, Bool, true, false, ◌||◌, Option, none, some, List, [],
  ◌∷◌, ◌++◌, map, replicate, ltb, leb, ◌==◌, if◌then◌else◌,
}
use routercenter_old.Prelude.Array.{read}
use routercenter_old.Display.{Display}
use routercenter_old.Display.Render.{mapped, byte}

-- The cursor is made square.
abbrev pub side : ℕ → ℕ → ℕ
side w0 h0 = if ltb h0 w0 then w0 else h0

-- `Math.ceil(n / 8)`
abbrev pub eighths : ℕ → ℕ
eighths n = (n + 7) / 8

abbrev pub le16 : ℕ → List ℕ
le16 num = num % 256 ∷ num / 2 ^ 8 % 256 ∷ []

abbrev pub le32 : ℕ → List ℕ
le32 num = num % 256 ∷ num / 2 ^ 8 % 256 ∷ num / 2 ^ 16 % 256 ∷ num / 2 ^ 24 % 256 ∷ []

-- `IHDRsz + RGBsz + XORsz + ANDsz`
abbrev pub data_size : ℕ → ℕ
data_size n = 40 + n * n * 4 + eighths (n * n) + eighths (n * n)

unfoldable pub header : ℕ → ℕ → ℕ → List ℕ
header n hotx hoty =
    le16 0
    ++ le16 2
    ++ le16 1
    ++ (n ∷ n ∷ 0 ∷ 0 ∷ [])
    ++ le16 hotx
    ++ le16 hoty
    ++ le32 (data_size n)
    ++ le32 22
    ++ le32 40
    ++ le32 n
    ++ le32 (n * 2)
    ++ le16 1
    ++ le16 32
    ++ le32 0
    ++ le32 (eighths (n * n) + eighths (n * n))
    ++ le32 0
    ++ le32 0
    ++ le32 0
    ++ le32 0

-- The bit of the mask for a pixel.
abbrev pub alpha : List (Option ℕ) → ℕ → ℕ → ℕ → ℕ
alpha mask w0 x y =
    if byte (read mask (y * eighths w0 + x / 8)) * 2 ^ (x % 8) / 128 % 2 == 1 then 255 else 0

-- Blue, green, red and alpha of a pixel; none if its colour is not in the map.
unfoldable pub cell :
    Option (List (List (Option ℕ)))
    → List (Option ℕ)
    → List (Option ℕ)
    → ℕ
    → ℕ
    → ℕ
    → ℕ
    → Option (List (Option ℕ))
unfolding mapped
cell cmap pixels mask w0 h0 x y =
    if leb w0 x || leb h0 y then some (some 0 ∷ some 0 ∷ some 0 ∷ some 0 ∷ []) else elim cmap [
      | none ↦
          let i = (w0 * y + x) * 4 in
          some (
            read pixels (i + 2)
            ∷ read pixels (i + 1)
            ∷ read pixels i
            ∷ some (alpha mask w0 x y)
            ∷ [])
      | some colours ↦ elim (mapped (read pixels (w0 * y + x)) colours) [
        | none ↦ none
        | some color ↦
            some (read color 2 ∷ read color 1 ∷ read color 0 ∷ some (alpha mask w0 x y) ∷ [])
      ]
    ]

abbrev pub both {ℓ} : {A : Type ℓ} → Option (List A) → Option (List A) → Option (List A)
both (some xs) (some ys) = some (xs ++ ys)
both _ _ = none

-- `count` pixels of a row, from `x` on.
unfoldable pub row : (ℕ → ℕ → Option (List (Option ℕ))) → ℕ → ℕ → ℕ → Option (List (Option ℕ))
row at zero x y = some []
row at (suc count) x y = both (at x y) (row at count (x + 1) y)

-- The rows below `y`, the last one first.
unfoldable pub rows : (ℕ → ℕ → Option (List (Option ℕ))) → ℕ → ℕ → Option (List (Option ℕ))
unfolding row
rows at n zero = some []
rows at n (suc y) = both (row at n 0 y) (rows at n y)

-- The two bit masks, of which each has a byte for eight pixels of a row.
unfoldable pub masks : ℕ → List (Option ℕ)
masks n = replicate (n * eighths n) (some 0) ++ replicate (n * eighths n) (some 0)

unfoldable pub cursor_file :
    List (Option ℕ)
    → List (Option ℕ)
    → ℕ
    → ℕ
    → ℕ
    → ℕ
    → Option (List (List (Option ℕ)))
    → Option (List (Option ℕ))
unfolding header rows cell masks
cursor_file pixels mask hotx hoty w0 h0 cmap =
    let n = side w0 h0 in
    both (some (map some (header n hotx hoty)))
      (both (rows (cell cmap pixels mask w0 h0) n n) (some (masks n)))

-- The cursor over the canvas.
pub data Cursor : Type 0 where
  default_cursor no_cursor : Cursor
  picture : List (Option ℕ) → ℕ → ℕ → Cursor

-- `changeCursor`, which throws where a colour is not in the map.
unfoldable pub change_cursor :
    Bool → List (Option ℕ) → List (Option ℕ) → ℕ → ℕ → ℕ → ℕ → Display → Cursor → Option Cursor
unfolding cursor_file
change_cursor false pixels mask hotx hoty w h s c = some c
change_cursor true pixels mask hotx hoty w h s c =
    elim (cursor_file pixels mask hotx hoty w h
      (if s.true_color then none else some s.colour_map)) [
        | none ↦ none
        | some file ↦ some (picture file hotx hoty)
      ]
