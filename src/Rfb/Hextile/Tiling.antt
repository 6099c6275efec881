-- ===== src/Rfb/Hextile/Tiling.antt =====
-- How the tiles of HEXTILE, in statics/include/rfb.js, lie in their rectangle.
use routercenter_old.Prelude.{ℕ, ◌+◌, ◌-◌, ◌*◌, ◌/◌, ◌%◌, ◌≡◌, ◌≤◌, ◌<◌, ◌↔◌, refl, sym, ◌∙◌, arith}
use Prim.Native.Nat.{min}
use native.Mathlib.Nat.{div-add-mod', mod-lt}
use routercenter_old.Prelude.Grid.{row_below, row_column}
use routercenter_old.Rfb.{Fbu}
use routercenter_old.Rfb.Hextile.{sixteenths, start_tiles, hex_x, hex_y, hex_w, hex_h}

-- A rectangle of which `k` tiles have been drawn.
unfoldable pub at_tile : ℕ → Fbu → Fbu
unfolding start_tiles
at_tile k u = let u' = start_tiles u in record u' { tiles = u'.total_tiles - k }

abbrev pub InTile : Fbu → ℕ → ℕ → Type 0
InTile u px py =
    ((hex_x u ≤ px) × (px < hex_x u + hex_w u)) × ((hex_y u ≤ py) × (py < hex_y u + hex_h u))

abbrev pub tile_number : Fbu → ℕ → ℕ → ℕ
tile_number u i j = j / 16 * sixteenths u.width + i / 16

-- Along one side: a cell is in the sixteen from `c * 16` on, or what is left of them, if c is its sixteenth.
one_side :
    (origin size c i : ℕ)
    → i < size
    → ((origin + c * 16 ≤ origin + i)
        × (origin + i < origin + c * 16 + min 16 (origin + size - (origin + c * 16))))
      ↔ (c ≡ i / 16)
one_side origin size c i lt = ground arith

-- The number of a cell of a table gives its row and its column.
both_sides :
    (across k row column : ℕ)
    → column < across
    → ((k % across ≡ column) × (k / across ≡ row)) ↔ (k ≡ row * across + column)
both_sides across k row column lt = (
  (λ h. sym (div-add-mod' k across) ∙ rw (h.0, h.1) refl),
  (λ e.
      row_column across column row (k % across) (k / across) lt (mod-lt k (omega arith))
        (omega (arith, div-add-mod' k across))),
)

sixteenth_below : (i size : ℕ) → i < size → i / 16 < sixteenths size
sixteenth_below i size lt = omega arith

pairs : {A B C D : Type 0} → A ↔ C → B ↔ D → (A × B) ↔ (C × D)
pairs h k = ((λ p. (h.0 p.0, k.0 p.1)), (λ p. (h.1 p.0, k.1 p.1)))

-- Each cell of the rectangle lies in exactly one of its tiles: in the one of its row and column of
-- sixteenths, which is among the tiles that the loop draws.
pub hextile_covers :
    (u : Fbu) (i j : ℕ)
    → i < u.width
    → j < u.height
    → (tile_number u i j < (start_tiles u).total_tiles)
      × ((k : ℕ)
          → k < (start_tiles u).total_tiles
          → InTile (at_tile k u) (u.x + i) (u.y + j) ↔ (k ≡ tile_number u i j))
unfolding at_tile start_tiles hex_x hex_y hex_w hex_h
hextile_covers u i j li lj =
    let across = sixteenths u.width in
    let total = across * sixteenths u.height in
    let below = sixteenth_below i u.width li in
    (
      omega (
        arith,
        row_below across 0 (sixteenths u.height) (i / 16) (j / 16) below
            (sixteenth_below j u.height lj),
      ),
      λ k lk.
          let drawn : total - (total - k) ≡ k = omega arith in
          let sides =
            pairs (one_side u.x u.width (k % across) i li)
              (one_side u.y u.height (k / across) j lj) in
          let number = both_sides across k (j / 16) (i / 16) below in
          rw drawn ((λ h. number.0 (sides.0 h)), (λ e. sides.1 (number.1 e))),
    )
