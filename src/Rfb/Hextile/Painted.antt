-- ===== src/Rfb/Hextile/Painted.antt =====
-- What drawing a tile of HEXTILE does, in statics/include/rfb.js.
use routercenter_old.Prelude.{
  ℕ, zero, suc, ◌+◌, ◌*◌, ◌≡◌, refl, sym, ap, ◌∙◌, Bool, true, false, Bool-cases, ==_iff, Option,
  none, some, List, [], ◌∷◌, ◌++◌, append_assoc, append-nil, drop, if◌then◌else◌, inl, inr, arith,
}
use routercenter_old.Prelude.Array.{read}
use routercenter_old.Prelude.Int.{pos}
use routercenter_old.Prelude.Result.{Result, ok}
use routercenter_old.Rfb.{Call, Rfb, M, ◌>>=◌, blitted, tile_started, tile_finished, call}
use routercenter_old.Rfb.Hextile.{
  flag, hex_w, hex_h, hex_x, hex_y, need, color_bytes, as_byte, is_zero, paint_read, paint_part,
  set_colors, finish_tile, draw_on, fill_tile, paint_parts, draw_parts, draw_tile,
}
use routercenter_old.Rfb.Hextile.Calls.{
  tile_length, or_nothing, part_size, part_call, part_calls, sub_calls, tile_background,
  tile_foreground, tile_calls, with_tile,
}
use routercenter_old.Rfb.Hextile.Gives.{
  Gives, then-Gives, branches_give, either-Gives, weaken, need-Gives,
}
use routercenter_old.Rfb.Hextile.Length.{length_cells, length_colors, length_parts}

abbrev pub with_calls : List Call → Rfb → Rfb
with_calls cs r = record r { calls = r.calls ++ cs }

-- The index is `n` further on, and the display has got the calls.
abbrev Painted : ℕ → ℕ → List Call → Rfb → ℕ → Rfb → Type 0
Painted i n cs r i' r' = (i' ≡ i + n) × (r' ≡ with_calls cs r)

abbrev part_at : Bool → ℕ → Rfb → Call
part_at colored i r = part_call colored r.sock.rq r.fb_bpp r.fbu.foreground i

paint_part-Gives :
    (colored : Bool) (i : ℕ) (r : Rfb)
    → Gives
        (Painted i (part_size colored r.fb_bpp) (part_at colored i r ∷ []) r)
        (paint_part colored i r)
unfolding paint_part paint_read part_call ◌>>=◌
paint_part-Gives true i r = (omega arith, refl)
paint_part-Gives false i r =
    then-Gives (Painted i 2 (part_at false i r ∷ []) r) (λ r. need r.fbu.foreground r)
      (paint_read false i) r
      (need-Gives r.fbu.foreground r
        (λ c r'. Gives (Painted i 2 (part_at false i r ∷ []) r) (paint_read false i c r'))
        (λ c e. (omega arith, rw e refl)))

abbrev parts_at : ℕ → Bool → ℕ → Rfb → List Call
parts_at n colored i r = part_calls n colored r.sock.rq r.fb_bpp r.fbu.foreground i

paint_parts-Gives :
    (n : ℕ) (colored : Bool) (i : ℕ) (r : Rfb)
    → Gives
        (Painted i (n * part_size colored r.fb_bpp) (parts_at n colored i r) r)
        (paint_parts n colored i r)
unfolding paint_parts part_calls
paint_parts-Gives zero colored i r = (omega arith, rw (append-nil r.calls) refl)
paint_parts-Gives (suc n) colored i r =
    let size = part_size colored r.fb_bpp in
    let Q = Painted i (suc n * size) (parts_at (suc n) colored i r) r in
    let first = part_at colored i r ∷ [] in
    then-Gives Q (paint_part colored i) (paint_parts n colored) r (
      weaken (Painted i size first r) (λ i' r'. Gives Q (paint_parts n colored i' r'))
        (paint_part colored i r)
        (λ i' r' h.
          rw (h.0, h.1)
            (weaken _ Q (paint_parts n colored (i + size) (with_calls first r))
              (λ i'' r'' k. (k.0 ∙ omega arith, k.1 ∙ rw (append_assoc r.calls first) refl))
              (paint_parts-Gives n colored (i + size) (with_calls first r))))
        (paint_part-Gives colored i r))

-- The bytes of the subrectangles with their number.
abbrev parts_length : ℕ → ℕ → Rfb → ℕ
parts_length sub i r =
    if flag sub 3 then 1 + as_byte (read r.sock.rq i) * part_size (flag sub 4) r.fb_bpp else 0

abbrev subs_at : ℕ → ℕ → Rfb → List Call
subs_at sub i r = sub_calls sub r.sock.rq r.fb_bpp r.fbu.foreground i

abbrev subs : ℕ → ℕ → M ℕ
subs sub i r =
    if flag sub 3
    then paint_parts (as_byte (read r.sock.rq i)) (flag sub 4) (i + 1) r
    else (ok i, r)

one_before :
    (i n : ℕ) (cs : List Call) (r : Rfb) (out : Result ℕ × Rfb)
    → Gives (Painted (i + 1) n cs r) out
    → Gives (Painted i (1 + n) cs r) out
one_before i n cs r out =
    weaken (Painted (i + 1) n cs r) (Painted i (1 + n) cs r) out
      (λ i' r' h. (h.0 ∙ omega arith, h.1))

subs_give :
    (sub i : ℕ) (r : Rfb)
    → Gives (Painted i (parts_length sub i r) (subs_at sub i r) r) (subs sub i r)
unfolding sub_calls
subs_give sub i r = elim (Bool-cases (flag sub 3)) [
  | inl e ↦
      rw (e, sub_calls)
        (one_before i _ _ r _
          (paint_parts-Gives (as_byte (read r.sock.rq i)) (flag sub 4) (i + 1) r))
  | inr e ↦ rw (e, sub_calls) (omega arith, rw (append-nil r.calls) refl)
]

-- The calls of a tile that is drawn in a background.
abbrev on_calls : ℕ → ℕ → List (Option ℕ) → Rfb → List Call
on_calls sub i background r =
    tile_started (hex_x r.fbu) (hex_y r.fbu) (hex_w r.fbu) (hex_h r.fbu) background
    ∷ (subs_at sub i r ++ tile_finished ∷ [])

draw_on-Gives :
    (sub i : ℕ) (background : List (Option ℕ)) (r : Rfb)
    → Gives
        (Painted i (parts_length sub i r) (on_calls sub i background r) r)
        (draw_on sub i background r)
unfolding draw_on finish_tile
draw_on-Gives sub i background r =
    let Q = Painted i (parts_length sub i r) (on_calls sub i background r) r in
    let r' =
      call (tile_started (hex_x r.fbu) (hex_y r.fbu) (hex_w r.fbu) (hex_h r.fbu) background) r in
    then-Gives Q _ _ r (
      then-Gives Q (subs sub i) finish_tile r' (
        weaken (Painted i (parts_length sub i r) (subs_at sub i r) r')
          (λ i' r''. Gives Q (finish_tile i' r'')) (subs sub i r')
          (λ i' r'' h. (
            h.0,
            ap (call tile_finished) h.1
                ∙ ap (λ z. record r { calls = z })
                    (append_assoc r'.calls (subs_at sub i r) (tile_finished ∷ [])
                      ∙ append_assoc r.calls _ (subs_at sub i r ++ tile_finished ∷ [])),
          ))
          (subs_give sub i r')))

-- The state with the colours that the tile sets.
abbrev with_colors : ℕ → Rfb → Rfb
with_colors sub r = record r {
  fbu = record r.fbu { background = tile_background sub r; foreground = tile_foreground sub r };
}

-- The colours of the tile, and the index behind them.
abbrev Colored : ℕ → Rfb → ℕ → Rfb → Type 0
Colored sub r i r' = (i ≡ r.sock.rqi + color_bytes sub r.fb_bpp) × (r' ≡ with_colors sub r)

colors_set :
    (sub : ℕ) (r : Rfb) (b c : Bool)
    → flag sub 0 ≡ false
    → flag sub 1 ≡ b
    → flag sub 2 ≡ c
    → Gives (Colored sub r) (set_colors sub (r.sock.rqi + 1) r)
unfolding set_colors tile_background tile_foreground
colors_set sub r true true e f g =
    (rw (f, g) (omega arith), rw (e, f, g, tile_background, tile_foreground) refl)
colors_set sub r true false e f g =
    (rw (f, g) (omega arith), rw (e, f, g, tile_background, tile_foreground) refl)
colors_set sub r false true e f g =
    (rw (f, g) (omega arith), rw (e, f, g, tile_background, tile_foreground) refl)
colors_set sub r false false e f g =
    (rw (f, g) (omega arith), rw (e, f, g, tile_background, tile_foreground) refl)

length_from :
    (sub : ℕ) (r : Rfb)
    → flag sub 0 ≡ false
    → r.sock.rqi
        + color_bytes sub r.fb_bpp
        + parts_length sub (r.sock.rqi + color_bytes sub r.fb_bpp) r
      ≡ r.sock.rqi + tile_length sub r
length_from sub r e =
    let i = r.sock.rqi + color_bytes sub r.fb_bpp in
    elim (Bool-cases (flag sub 3)) [
      | inl k ↦ rw (k, length_parts sub (as_byte (read r.sock.rq i)) r e k refl) (omega arith)
      | inr k ↦ rw (k, length_colors sub r e k) (omega arith)
    ]

-- The index is behind the tile, and the display has been asked to draw it.
abbrev pub Drawn : Option ℕ → Rfb → ℕ → Rfb → Type 0
Drawn sub r i r' = (i ≡ r.sock.rqi + tile_length (as_byte sub) r) × (r' ≡ with_tile sub r)

abbrev PartsDrawn : ℕ → Rfb → ℕ → Rfb → Type 0
PartsDrawn sub r i r' =
    (i ≡ r.sock.rqi + tile_length sub r)
    × (r'
        ≡ with_calls
            (on_calls sub (r.sock.rqi + color_bytes sub r.fb_bpp)
              (or_nothing (tile_background sub r)) (with_colors sub r))
            (with_colors sub r))

draw_parts-Gives :
    (sub : ℕ) (r : Rfb)
    → flag sub 0 ≡ false
    → Gives (PartsDrawn sub r) (draw_parts sub (r.sock.rqi + 1) r)
unfolding draw_parts
draw_parts-Gives sub r e =
    let R = PartsDrawn sub r in
    let s = with_colors sub r in
    let j = r.sock.rqi + color_bytes sub r.fb_bpp in
    then-Gives R (set_colors sub (r.sock.rqi + 1))
      (λ i. (λ r. need r.fbu.background r) >>= draw_on sub i) r
      (weaken (Colored sub r)
        (λ i r'. Gives R (((λ r. need r.fbu.background r) >>= draw_on sub i) r'))
        (set_colors sub (r.sock.rqi + 1) r)
        (λ i r' h.
          rw (h.0, h.1)
            (then-Gives R (λ r. need r.fbu.background r) (draw_on sub j) s
              (need-Gives (tile_background sub r) s (λ c r''. Gives R (draw_on sub j c r''))
                (λ c found.
                  weaken (Painted j (parts_length sub j s) (on_calls sub j c s) s) R
                    (draw_on sub j c s)
                    (λ i' r'' k. (
                      k.0 ∙ length_from sub r e,
                      k.1 ∙ ap (λ o. with_calls (on_calls sub j (or_nothing o) s) s) (sym found),
                    ))
                    (draw_on-Gives sub j c s)))))
        (colors_set sub r _ _ e refl refl))

raw_drawn :
    (sub : Option ℕ) (r : Rfb)
    → is_zero sub ≡ false
    → flag (as_byte sub) 0 ≡ true
    → with_tile sub r
      ≡ call
          (blitted
            (pos (hex_x r.fbu))
            (pos (hex_y r.fbu))
            (pos (hex_w r.fbu))
            (pos (hex_h r.fbu))
            (drop (r.sock.rqi + 1) r.sock.rq))
          r
unfolding with_tile tile_calls
raw_drawn sub r z e = rw (z, e) refl

parts_drawn :
    (sub : Option ℕ) (r : Rfb) (i : ℕ) (r' : Rfb)
    → is_zero sub ≡ false
    → flag (as_byte sub) 0 ≡ false
    → PartsDrawn (as_byte sub) r i r'
    → Drawn sub r i r'
unfolding with_tile tile_calls hex_x hex_y hex_w hex_h
parts_drawn sub r i r' z e h = (h.0, h.1 ∙ rw (z, e) refl)

-- A blank tile.
blank-Gives : (r : Rfb) → Gives (Drawn (some 0) r) (draw_tile (some 0) (r.sock.rqi + 1) r)
unfolding draw_tile fill_tile with_tile tile_calls tile_background tile_foreground tile_length
blank-Gives r =
    let R = Drawn (some 0) r in
    let i = r.sock.rqi + 1 in
    branches_give R (flag r.fbu.last_subencoding 0) _ _
      (λ k. (refl, rw (k, append-nil r.calls) refl))
      (λ k. then-Gives R (need r.fbu.background) (fill_tile i) r (
        need-Gives r.fbu.background r (λ c r''. Gives R (fill_tile i c r''))
          (λ c found. (refl, rw (k, found) refl))))

is_zero_iff : (sub : Option ℕ) → is_zero sub ≡ true → sub ≡ some 0
is_zero_iff none e = absurd (ground (arith, e))
is_zero_iff (some n) e = ap some ((==_iff n 0).0 e)

pub draw_tile-Gives :
    (sub : Option ℕ) (r : Rfb)
    → r.fbu.bytes ≡ tile_length (as_byte sub) r
    → Gives (Drawn sub r) (draw_tile sub (r.sock.rqi + 1) r)
unfolding draw_tile
draw_tile-Gives sub r size = elim (Bool-cases (is_zero sub)) [
  | inl e ↦ rw (is_zero_iff sub e) (blank-Gives r)
  | inr z ↦
      rw (z, draw_tile)
        (either-Gives (Drawn sub r) (flag (as_byte sub) 0) _ _ r
          (λ e. (omega (arith, size, length_cells (as_byte sub) r e), sym (raw_drawn sub r z e)))
          (λ e.
            weaken (PartsDrawn (as_byte sub) r) (Drawn sub r)
              (draw_parts (as_byte sub) (r.sock.rqi + 1) r) (λ i r' h. parts_drawn sub r i r' z e h)
              (draw_parts-Gives (as_byte sub) r e)))
]
