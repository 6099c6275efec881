-- ===== src/Rfb/Hextile/Consumed.antt =====
-- That a tile of HEXTILE, in statics/include/rfb.js, takes from the queue what was waited for.
use routercenter_old.Prelude.{
  ℕ, zero, suc, ◌+◌, ◌-◌, ◌≡◌, ◌≤◌, ◌<◌, refl, ap, ◌∙◌, Bool, true, false, some, length, ltb,
  if◌then◌else◌, ◌⊎◌, inl, inr, arith, tests,
}
use routercenter_old.Prelude.Array.{read}
use routercenter_old.Prelude.Int.{pos}
use routercenter_old.Rfb.{Rfb, pure}
use routercenter_old.Rfb.Queue.{wait}
use routercenter_old.Rfb.Hextile.{
  hex_w, hex_h, hex_x, hex_y, as_byte, measure, draw_tile, tile_done, take_tile, read_tile,
  hextile_tile, hextile_loop,
}
use routercenter_old.Rfb.Life.{fail}
use routercenter_old.Rfb.Hextile.Calls.{
  tile_length, tile_background, tile_foreground, tile_calls, with_tile, after_tile,
}
use routercenter_old.Rfb.Hextile.Gives.{Gives, then-Gives, either-Gives, weaken, wait-Gives}
use routercenter_old.Rfb.Hextile.Length.{measure-Gives, Ready, with_bytes}
use routercenter_old.Rfb.Hextile.Painted.{Drawn, draw_tile-Gives}

-- The state after the tile if it has been drawn; if not, only what is expected is written down, or the
-- subencoding is above 30 and the client has failed.
unfoldable pub TileEnds : Rfb → Bool → Rfb → Type 0
TileEnds r true r' =
    let sub = read r.sock.rq r.sock.rqi in
    (r' ≡ after_tile sub r) × (r.sock.rqi + tile_length (as_byte sub) r ≤ length r.sock.rq)
TileEnds r false r' =
    ((n : ℕ) × (r' ≡ with_bytes n r))
    ⊎ ((30 < as_byte (read r.sock.rq r.sock.rqi)) × (r' ≡ fail (with_bytes 1 r)))

length-bytes :
    (sub : ℕ) (r : Rfb)
    → with_bytes (tile_length sub (with_bytes 1 r)) (with_bytes 1 r)
      ≡ with_bytes (tile_length sub r) r
unfolding tile_length hex_w hex_h hex_x hex_y
length-bytes sub r = refl

tile_done_ends :
    (i : ℕ) (r r' : Rfb)
    → let sub = read r.sock.rq r.sock.rqi in
      r.sock.rqi + tile_length (as_byte sub) r ≤ length r.sock.rq
      → Drawn sub (with_bytes (tile_length (as_byte sub) r) r) i r'
      → Gives (TileEnds r) (tile_done sub i r')
unfolding tile_done TileEnds after_tile with_tile tile_calls tile_length tile_background
    tile_foreground hex_x hex_y hex_w hex_h
tile_done_ends i r r' le h = (rw (h.0, h.1) refl, le)

Ready-TileEnds :
    (r : Rfb) (short : Bool) (r' : Rfb)
    → let sub = read r.sock.rq r.sock.rqi in
      Ready (as_byte sub) (with_bytes 1 r) short r'
      → Gives (TileEnds r) ((if short then pure false else take_tile sub) r')
unfolding Ready TileEnds take_tile tile_length hex_w hex_h
Ready-TileEnds r true r' h = inl (h.0, h.1)
Ready-TileEnds r false r' h =
    let sub = read r.sock.rq r.sock.rqi in
    let s = with_bytes (tile_length (as_byte sub) r) r in
    rw (h.0 ∙ length-bytes (as_byte sub) r) (
      then-Gives (TileEnds r) (λ r. draw_tile sub (r.sock.rqi + 1) r) (tile_done sub) s
        (weaken (Drawn sub s) (λ i r''. Gives (TileEnds r) (tile_done sub i r''))
          (draw_tile sub (r.sock.rqi + 1) s) (λ i r'' m. tile_done_ends i r r'' h.1 m)
          (draw_tile-Gives sub s refl)))

read_tile_ends :
    (r : Rfb) → Gives (TileEnds r) (read_tile (read r.sock.rq r.sock.rqi) (with_bytes 1 r))
unfolding read_tile TileEnds
read_tile_ends r =
    let sub = read r.sock.rq r.sock.rqi in
    either-Gives (TileEnds r) (ltb 30 (as_byte sub)) _ _ (with_bytes 1 r)
      (λ k. inr (omega tests, refl))
      (λ k.
        then-Gives (TileEnds r) (measure (as_byte sub))
          (λ short. if short then pure false else take_tile sub) (with_bytes 1 r)
          (weaken (Ready (as_byte sub) (with_bytes 1 r))
            (λ short r'. Gives (TileEnds r) ((if short then pure false else take_tile sub) r'))
            (measure (as_byte sub) (with_bytes 1 r)) (Ready-TileEnds r)
            (measure-Gives (as_byte sub) (with_bytes 1 r))))

pub hextile_tile-TileEnds : (r : Rfb) → Gives (TileEnds r) (hextile_tile r)
unfolding hextile_tile TileEnds
hextile_tile-TileEnds r =
    let r' = with_bytes 1 r in
    then-Gives (TileEnds r) _ _ r (
      then-Gives (TileEnds r) (wait (some (pos 1)) (pos 0)) _ r'
        (wait-Gives 1 r' _ (inl (1, refl)) (λ le. read_tile_ends r)))

abbrev pub AllDrawn : Bool → Rfb → Type 0
AllDrawn drawn r = drawn ≡ true → r.fbu.tiles ≡ 0

tiles_after :
    (drawn : Bool) (r r' : Rfb)
    → TileEnds r drawn r'
    → drawn ≡ true
    → r'.fbu.tiles ≡ r.fbu.tiles - 1
unfolding TileEnds after_tile with_tile
tiles_after true r r' h e = ap (λ s. s.fbu.tiles) h.0
tiles_after false r r' h e = cc

-- As many rounds as there are tiles left are enough for the loop of HEXTILE: when they have all drawn their
-- tile, none is left.
pub hextile_loop-AllDrawn : (n : ℕ) (r : Rfb) → r.fbu.tiles ≡ n → Gives AllDrawn (hextile_loop n r)
unfolding hextile_loop TileEnds
hextile_loop-AllDrawn zero r e = λ t. e
hextile_loop-AllDrawn (suc n) r e =
    then-Gives AllDrawn hextile_tile (λ drawn. if drawn then hextile_loop n else pure false) r
      (weaken (TileEnds r)
        (λ drawn r'. Gives AllDrawn ((if drawn then hextile_loop n else pure false) r'))
        (hextile_tile r)
        (λ drawn r' h.
          either-Gives AllDrawn drawn (hextile_loop n) (pure false) r'
            (λ t. hextile_loop-AllDrawn n r' (omega (arith, tiles_after drawn r r' h t, e)))
            (λ f t. cc))
        (hextile_tile-TileEnds r))
