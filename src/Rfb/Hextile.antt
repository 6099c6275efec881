-- ===== src/Rfb/Hextile.antt =====
-- statics/include/rfb.js: the encoding HEXTILE. The index `rQi`, which the code keeps for a round of its
-- loop and sets at the round's end, is passed on.
pub mod Gives
pub mod Calls
pub mod Length
pub mod Painted
pub mod Consumed
pub mod Tiling
use routercenter_old.Prelude.{
  ℕ, zero, suc, ◌+◌, ◌-◌, ◌*◌, ◌/◌, ◌%◌, ◌^◌, Bool, true, false, not, Option, none, some, List,
  drop, ltb, ◌==◌, if◌then◌else◌,
}
use Prim.Native.Nat.{min}
use routercenter_old.Prelude.Array.{read}
use routercenter_old.Prelude.Int.{ℤ, pos}
use routercenter_old.Prelude.Result.{Result, ok, err, type_error}
use routercenter_old.Websock
use routercenter_old.Rfb.{
  Call, blitted, filled, tile_started, tile_painted, tile_finished, Fbu, Rfb, M, ◌>>=◌, ◌>>◌, pure,
  modify, with_fbu, call,
}
use routercenter_old.Rfb.Queue.{wait}
use routercenter_old.Rfb.Life.{fail}

-- `subencoding & 2 ** k`
abbrev pub flag : ℕ → ℕ → Bool
flag sub k = sub / 2 ^ k % 2 == 1

-- `Math.ceil(n / 16)`
abbrev pub sixteenths : ℕ → ℕ
sixteenths n = (n + 15) / 16

unfoldable pub start_tiles : Fbu → Fbu
start_tiles u = record u {
  tiles_x = sixteenths u.width;
  tiles_y = sixteenths u.height;
  total_tiles = sixteenths u.width * sixteenths u.height;
  tiles = sixteenths u.width * sixteenths u.height;
}

-- Where the tile is, and its size. There is a tile in a row when one is left.
unfoldable pub hex_x : Fbu → ℕ
hex_x u = u.x + (u.total_tiles - u.tiles) % u.tiles_x * 16

unfoldable pub hex_y : Fbu → ℕ
hex_y u = u.y + (u.total_tiles - u.tiles) / u.tiles_x * 16

unfoldable pub hex_w : Fbu → ℕ
unfolding hex_x
hex_w u = min 16 (u.x + u.width - hex_x u)

unfoldable pub hex_h : Fbu → ℕ
unfolding hex_y
hex_h u = min 16 (u.y + u.height - hex_y u)

-- A byte that is undefined is 0 for `>>` and `&`.
abbrev pub as_byte : Option ℕ → ℕ
as_byte none = 0
as_byte (some n) = n

-- A colour that is null when it is looked at.
unfoldable pub need : Option (List (Option ℕ)) → M (List (Option ℕ))
need none r = (err type_error, r)
need (some color) r = (ok color, r)

abbrev pub expect : ℕ → M (Unit {0})
expect n = modify (with_fbu (λ u. record u { bytes = n }))

-- `_FBU.bytes` up to the subrectangles.
abbrev pub color_bytes : ℕ → ℕ → ℕ
color_bytes sub bpp = 1 + (if flag sub 1 then bpp else 0) + (if flag sub 2 then bpp else 0)

abbrev pub part_bytes : ℕ → ℕ → ℕ
part_bytes sub bpp = if flag sub 4 then bpp + 2 else 2

-- With the number of subrectangles that has been read. An undefined one makes `_FBU.bytes` not a number,
-- for which the code never waits; nothing reads that `bytes` again.
unfoldable pub measure_with : ℕ → Option ℕ → M Bool
unfolding wait
measure_with sub none = pure false
measure_with sub (some count) = do
  (λ r. expect (r.fbu.bytes + count * part_bytes sub r.fb_bpp) r)
  (λ r. wait (some (pos r.fbu.bytes)) (pos 0) r)

unfoldable pub count_parts : ℕ → M Bool
unfolding measure_with
count_parts sub r = measure_with sub (read r.sock.rq (r.sock.rqi + r.fbu.bytes - 1)) r

-- How many bytes the tile takes, its subencoding included; the answer is true if more are needed.
unfoldable pub measure_parts : ℕ → M Bool
unfolding count_parts wait
measure_parts sub = do
  (λ r. expect (color_bytes sub r.fb_bpp + 1) r)
  short ← (λ r. wait (some (pos r.fbu.bytes)) (pos 0) r)
  if short then pure true else count_parts sub

unfoldable pub measure : ℕ → M Bool
unfolding measure_parts wait
measure sub =
    if flag sub 0
    then (do
      (λ r. expect (1 + hex_w r.fbu * hex_h r.fbu * r.fb_bpp) r)
      (λ r. wait (some (pos r.fbu.bytes)) (pos 0) r))
    else if flag sub 3
    then measure_parts sub
    else (do
      (λ r. expect (color_bytes sub r.fb_bpp) r)
      (λ r. wait (some (pos r.fbu.bytes)) (pos 0) r))

unfoldable pub paint_read : Bool → ℕ → List (Option ℕ) → M ℕ
paint_read colored i color r =
    let i' = if colored then i + r.fb_bpp else i in
    let xy = as_byte (read r.sock.rq i') in
    let wh = as_byte (read r.sock.rq (i' + 1)) in
    (ok (i' + 1 + 1), call (tile_painted (xy / 16) (xy % 16) (wh / 16 + 1) (wh % 16 + 1) color) r)

-- A subrectangle at an index, in its own colour or in the foreground; the index after it.
unfoldable pub paint_part : Bool → ℕ → M ℕ
unfolding need paint_read
paint_part colored i = do
  color ← (λ r.
      if colored
      then (ok (Websock.slice r.sock.rq i (i + r.fb_bpp)), r)
      else need r.fbu.foreground r)
  paint_read colored i color

unfoldable pub paint_parts : ℕ → Bool → ℕ → M ℕ
unfolding paint_part
paint_parts zero colored i = pure i
paint_parts (suc n) colored i = do i' ← paint_part colored i; paint_parts n colored i'

unfoldable pub set_colors : ℕ → ℕ → M ℕ
set_colors sub i r =
    let i' = if flag sub 1 then i + r.fb_bpp else i in
    let i'' = if flag sub 2 then i' + r.fb_bpp else i' in
    (
      ok i'',
      with_fbu
          (λ u. record u {
            background = if flag sub 1 then some (Websock.slice r.sock.rq i i') else u.background;
            foreground = if flag sub 2 then some (Websock.slice r.sock.rq i' i'') else u.foreground;
          })
          r,
    )

unfoldable pub finish_tile : ℕ → M ℕ
finish_tile i r = (ok i, call tile_finished r)

-- The tile in the background colour, and its subrectangles from an index on.
unfoldable pub draw_on : ℕ → ℕ → List (Option ℕ) → M ℕ
unfolding paint_parts finish_tile
draw_on sub i background = do
  modify (λ r.
      call (tile_started (hex_x r.fbu) (hex_y r.fbu) (hex_w r.fbu) (hex_h r.fbu) background) r)
  i' ← (λ r.
      if flag sub 3
      then paint_parts (as_byte (read r.sock.rq i)) (flag sub 4) (i + 1) r
      else (ok i, r))
  finish_tile i'

unfoldable pub draw_parts : ℕ → ℕ → M ℕ
unfolding set_colors need draw_on
draw_parts sub i = do
  i' ← set_colors sub i
  background ← (λ r. need r.fbu.background r)
  draw_on sub i' background

unfoldable pub fill_tile : ℕ → List (Option ℕ) → M ℕ
fill_tile i background r = (
  ok i,
  call
      (filled (pos (hex_x r.fbu)) (pos (hex_y r.fbu)) (pos (hex_w r.fbu)) (pos (hex_h r.fbu))
        background)
      r,
)

-- `=== 0`
abbrev pub is_zero : Option ℕ → Bool
is_zero none = false
is_zero (some n) = n == 0

-- The whole tile, of which `i` is the index after the subencoding.
unfoldable pub draw_tile : Option ℕ → ℕ → M ℕ
unfolding draw_parts need fill_tile
draw_tile sub i =
    if is_zero sub
    then (λ r.
        if flag r.fbu.last_subencoding 0
        then (ok i, r)
        else (do background ← need r.fbu.background; fill_tile i background) r)
    else if flag (as_byte sub) 0
    then (λ r. (
      ok (i + (r.fbu.bytes - 1)),
      call
          (blitted (pos (hex_x r.fbu)) (pos (hex_y r.fbu)) (pos (hex_w r.fbu)) (pos (hex_h r.fbu))
            (drop i r.sock.rq))
          r,
    ))
    else draw_parts (as_byte sub) i

unfoldable pub tile_done : Option ℕ → ℕ → M Bool
tile_done sub i r = (
  ok true,
  record r {
    sock = Websock.set_rqi i r.sock;
    fbu = record r.fbu { last_subencoding = as_byte sub; bytes = 0; tiles = r.fbu.tiles - 1 };
  },
)

unfoldable pub take_tile : Option ℕ → M Bool
unfolding draw_tile tile_done
take_tile sub = do i ← (λ r. draw_tile sub (r.sock.rqi + 1) r); tile_done sub i

unfoldable pub read_tile : Option ℕ → M Bool
unfolding measure take_tile fail
read_tile sub =
    if ltb 30 (as_byte sub)
    then (λ r. (ok false, fail r))
    else do short ← measure (as_byte sub); if short then pure false else take_tile sub

-- A round of the loop.
unfoldable pub hextile_tile : M Bool
unfolding read_tile wait
hextile_tile = do
  expect 1
  short ← wait (some (pos 1)) (pos 0)
  if short then pure false else (λ r. read_tile (read r.sock.rq r.sock.rqi) r)

-- Each round takes a tile off.
unfoldable pub hextile_loop : ℕ → M Bool
unfolding hextile_tile
hextile_loop zero = pure true
hextile_loop (suc f) = do drawn ← hextile_tile; if drawn then hextile_loop f else pure false

-- All tiles have been drawn at the end of the loop.
unfoldable pub hextile : M Bool
unfolding hextile_loop start_tiles
hextile = do
  modify (with_fbu (λ u. if u.tiles == 0 then start_tiles u else u))
  drawn ← (λ r. hextile_loop r.fbu.tiles r)
  if not drawn then pure false else do
    modify (with_fbu (λ u. if u.tiles == 0 then record u { rects = u.rects - 1 } else u))
    pure true
