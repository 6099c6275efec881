-- ===== src/Rfb/Keeps/Hextile.antt =====
-- What is kept by HEXTILE.
use routercenter_old.Prelude.{ℕ, zero, suc, ◌+◌, ◌-◌, Bool, not, Option, none, some, List, ltb}
use routercenter_old.Prelude.Array.{read}
use routercenter_old.Prelude.Int.{pos}
use routercenter_old.Rfb.{State, Rfb}
use routercenter_old.Rfb.Queue.{wait}
use routercenter_old.Rfb.Life.{fail}
use routercenter_old.Rfb.Hextile.{
  flag, as_byte, is_zero, need, measure_with, count_parts, measure_parts, measure, paint_read,
  paint_part, paint_parts, set_colors, finish_tile, draw_on, fill_tile, draw_parts, draw_tile,
  tile_done, take_tile, read_tile, hextile_tile, hextile_loop, hextile,
}
use routercenter_old.Rfb.Keeps.{P, Keeps, in_turn, either_way, wait-Keeps, if_after, waits_keep}

module _ {κ} (Q : State → Bool → Bool → Type κ) where
  need-Keeps : (color : Option (List (Option ℕ))) → Keeps Q (need color)
  unfolding need
  need-Keeps none r p = p
  need-Keeps (some color) r p = p

  waits : Keeps Q (λ r. wait (some (pos r.fbu.bytes)) (pos 0) r)
  waits r = wait-Keeps Q (some (pos r.fbu.bytes)) (pos 0) r

  measure_with-Keeps : (sub : ℕ) (count : Option ℕ) → Keeps Q (measure_with sub count)
  unfolding measure_with
  measure_with-Keeps sub none = λ r p. p
  measure_with-Keeps sub (some count) = in_turn Q _ _ (λ r p. p) (λ u. waits)

  measure-Keeps : (sub : ℕ) → Keeps Q (measure sub)
  unfolding measure measure_parts count_parts
  measure-Keeps sub = either_way Q (flag sub 0) _ _ (in_turn Q _ _ (λ r p. p) (λ u. waits)) (
      either_way Q (flag sub 3) _ _
        (in_turn Q _ _ (λ r p. p)
          (λ u. in_turn Q _ _ waits (λ short.
            either_way Q short _ _ (λ r p. p)
              (λ r. measure_with-Keeps sub (read r.sock.rq (r.sock.rqi + r.fbu.bytes - 1)) r))))
        (in_turn Q _ _ (λ r p. p) (λ u. waits)))

  paint_part-Keeps : (colored : Bool) (i : ℕ) → Keeps Q (paint_part colored i)
  unfolding paint_part paint_read
  paint_part-Keeps colored i =
      in_turn Q _ _ (λ r p. if_after Q colored _ _ p (need-Keeps r.fbu.foreground r p))
        (λ color r p. p)

  paint_parts-Keeps : (n : ℕ) (colored : Bool) (i : ℕ) → Keeps Q (paint_parts n colored i)
  unfolding paint_parts
  paint_parts-Keeps zero colored i = λ r p. p
  paint_parts-Keeps (suc n) colored i =
      in_turn Q _ _ (paint_part-Keeps colored i) (λ i'. paint_parts-Keeps n colored i')

  draw_parts-Keeps : (sub i : ℕ) → Keeps Q (draw_parts sub i)
  unfolding draw_parts set_colors draw_on finish_tile
  draw_parts-Keeps sub i =
      in_turn Q _ _ (λ r p. p)
        (λ i'.
          in_turn Q _ _ (λ r. need-Keeps r.fbu.background r)
            (λ background.
              in_turn Q _ _ (λ r p. p)
                (λ u.
                  in_turn Q _ _
                    (λ r p.
                      if_after Q (flag sub 3) _ _ (paint_parts-Keeps _ (flag sub 4) (i' + 1) r p) p)
                    (λ i'' r p. p))))

  draw_tile-Keeps : (sub : Option ℕ) (i : ℕ) → Keeps Q (draw_tile sub i)
  unfolding draw_tile fill_tile
  draw_tile-Keeps sub i =
      either_way Q (is_zero sub) _ _
        (λ r p.
          if_after Q (flag r.fbu.last_subencoding 0) _ _ p
            (in_turn Q _ _ (need-Keeps r.fbu.background) (λ background r p. p) r p))
        (either_way Q (flag (as_byte sub) 0) _ _ (λ r p. p) (draw_parts-Keeps (as_byte sub) i))

  module _ (fails : (r : Rfb) → P Q r → P Q (fail r)) where
    read_tile-Keeps : (sub : Option ℕ) → Keeps Q (read_tile sub)
    unfolding read_tile take_tile tile_done
    read_tile-Keeps sub = either_way Q (ltb 30 (as_byte sub)) _ _ fails (
        in_turn Q _ _ (measure-Keeps (as_byte sub)) (λ short.
          either_way Q short _ _ (λ r p. p)
            (in_turn Q _ _ (λ r. draw_tile-Keeps sub (r.sock.rqi + 1) r) (λ i r p. p))))

    hextile_tile-Keeps : Keeps Q hextile_tile
    unfolding hextile_tile
    hextile_tile-Keeps =
        in_turn Q _ _ (λ r p. p)
          (λ u.
            waits_keep Q (some (pos 1)) (pos 0) _
              (λ r. read_tile-Keeps (read r.sock.rq r.sock.rqi) r))

    hextile_loop-Keeps : (f : ℕ) → Keeps Q (hextile_loop f)
    unfolding hextile_loop
    hextile_loop-Keeps zero = λ r p. p
    hextile_loop-Keeps (suc f) =
        in_turn Q _ _ hextile_tile-Keeps
          (λ drawn. either_way Q drawn _ _ (hextile_loop-Keeps f) (λ r p. p))

    pub hextile-Keeps : Keeps Q hextile
    unfolding hextile
    hextile-Keeps =
        in_turn Q _ _ (λ r p. p)
          (λ u.
            in_turn Q _ _ (λ r. hextile_loop-Keeps r.fbu.tiles r)
              (λ drawn.
                either_way Q (not drawn) _ _ (λ r p. p) (in_turn Q _ _ (λ r p. p) (λ u r p. p))))
