-- ===== src/Rfb/Hextile/Calls.antt =====
-- What the display is asked to draw for a tile of HEXTILE, in statics/include/rfb.js, and what is kept for
-- the next tiles, as the bytes of the tile say.
use routercenter_old.Prelude.{
  ℕ, zero, suc, ◌+◌, ◌-◌, ◌*◌, ◌/◌, ◌%◌, Bool, not, ◌&&◌, Option, none, some, List, [], ◌∷◌, ◌++◌,
  drop, if◌then◌else◌,
}
use routercenter_old.Prelude.Array.{read}
use routercenter_old.Prelude.Int.{pos}
use routercenter_old.Websock
use routercenter_old.Websock.{Websock}
use routercenter_old.Rfb.{Call, blitted, filled, tile_started, tile_painted, tile_finished, Rfb}
use routercenter_old.Rfb.Hextile.{
  flag, hex_w, hex_h, hex_x, hex_y, color_bytes, part_bytes, as_byte, is_zero,
}

abbrev pub or_nothing : Option (List (Option ℕ)) → List (Option ℕ)
or_nothing none = []
or_nothing (some color) = color

-- The bytes of a subrectangle.
abbrev pub part_size : Bool → ℕ → ℕ
part_size colored bpp = if colored then bpp + 2 else 2

-- What a tile takes, as its bytes say: the subencoding, and all cells; or the colours that are set, and
-- the number of subrectangles with each of them.
unfoldable pub tile_length : ℕ → Rfb → ℕ
tile_length sub r =
    if flag sub 0
    then 1 + hex_w r.fbu * hex_h r.fbu * r.fb_bpp
    else if flag sub 3
    then color_bytes sub r.fb_bpp
      + 1
      + as_byte (read r.sock.rq (r.sock.rqi + color_bytes sub r.fb_bpp)) * part_bytes sub r.fb_bpp
    else color_bytes sub r.fb_bpp

-- A subrectangle from the bytes at an index: its place and its size, four bits each, behind its colour if
-- it has one of its own.
unfoldable pub part_call : Bool → List (Option ℕ) → ℕ → Option (List (Option ℕ)) → ℕ → Call
part_call colored rq bpp foreground i =
    let at = if colored then i + bpp else i in
    let place = as_byte (read rq at) in
    let size = as_byte (read rq (at + 1)) in
    tile_painted (place / 16) (place % 16) (size / 16 + 1) (size % 16 + 1)
      (if colored then Websock.slice rq i (i + bpp) else or_nothing foreground)

-- That many of them, one behind the other.
unfoldable pub part_calls :
    ℕ → Bool → List (Option ℕ) → ℕ → Option (List (Option ℕ)) → ℕ → List Call
unfolding part_call
part_calls zero colored rq bpp foreground i = []
part_calls (suc n) colored rq bpp foreground i =
    part_call colored rq bpp foreground i
    ∷ part_calls n colored rq bpp foreground (i + part_size colored bpp)

-- The subrectangles, if there are any, with their number first.
unfoldable pub sub_calls : ℕ → List (Option ℕ) → ℕ → Option (List (Option ℕ)) → ℕ → List Call
unfolding part_calls
sub_calls sub rq bpp foreground i =
    if flag sub 3
    then part_calls (as_byte (read rq i)) (flag sub 4) rq bpp foreground (i + 1)
    else []

-- The colours, of which a tile of all its cells sets none.
unfoldable pub tile_background : ℕ → Rfb → Option (List (Option ℕ))
tile_background sub r =
    if not (flag sub 0) && flag sub 1
    then some (Websock.slice r.sock.rq (r.sock.rqi + 1) (r.sock.rqi + 1 + r.fb_bpp))
    else r.fbu.background

unfoldable pub tile_foreground : ℕ → Rfb → Option (List (Option ℕ))
tile_foreground sub r =
    let i = if flag sub 1 then r.sock.rqi + 1 + r.fb_bpp else r.sock.rqi + 1 in
    if not (flag sub 0) && flag sub 2
    then some (Websock.slice r.sock.rq i (i + r.fb_bpp))
    else r.fbu.foreground

-- A blank tile is filled with the background, and left out behind one of all its cells.
unfoldable pub tile_calls : Option ℕ → Rfb → List Call
unfolding sub_calls tile_background tile_foreground
tile_calls sub r =
    let n = as_byte sub in
    let x = hex_x r.fbu in
    let y = hex_y r.fbu in
    let w = hex_w r.fbu in
    let h = hex_h r.fbu in
    if is_zero sub
    then if flag r.fbu.last_subencoding 0
      then []
      else filled (pos x) (pos y) (pos w) (pos h) (or_nothing r.fbu.background) ∷ []
    else if flag n 0
    then blitted (pos x) (pos y) (pos w) (pos h) (drop (r.sock.rqi + 1) r.sock.rq) ∷ []
    else tile_started x y w h (or_nothing (tile_background n r))
      ∷ (sub_calls n r.sock.rq r.fb_bpp (tile_foreground n r) (r.sock.rqi + color_bytes n r.fb_bpp)
          ++ tile_finished ∷ [])

-- The state with the tile drawn.
unfoldable pub with_tile : Option ℕ → Rfb → Rfb
unfolding tile_calls tile_background tile_foreground
with_tile sub r = record r {
  fbu = record r.fbu {
    background = tile_background (as_byte sub) r;
    foreground = tile_foreground (as_byte sub) r;
  };
  calls = r.calls ++ tile_calls sub r;
}

-- The state after the tile.
unfoldable pub after_tile : Option ℕ → Rfb → Rfb
unfolding tile_length with_tile
after_tile sub r =
    let s = with_tile sub r in
    record s {
      sock = Websock.set_rqi (r.sock.rqi + tile_length (as_byte sub) r) r.sock;
      fbu = record s.fbu { last_subencoding = as_byte sub; bytes = 0; tiles = r.fbu.tiles - 1 };
    }
