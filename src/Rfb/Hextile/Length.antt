-- ===== src/Rfb/Hextile/Length.antt =====
-- How much of the queue a tile of HEXTILE takes, in statics/include/rfb.js.
use routercenter_old.Prelude.{
  ℕ, ◌+◌, ◌-◌, ◌*◌, ◌≡◌, ◌≤◌, refl, sym, ap, Bool, true, false, Option, none, some, length,
  if◌then◌else◌, arith,
}
use routercenter_old.Prelude.Array.{read}
use routercenter_old.Prelude.Int.{pos}
use routercenter_old.Rfb.{Rfb, with_fbu, pure}
use routercenter_old.Rfb.Queue.{wait}
use routercenter_old.Rfb.Hextile.{
  flag, hex_w, hex_h, color_bytes, part_bytes, measure_with, count_parts, measure_parts, measure,
  as_byte,
}
use routercenter_old.Rfb.Hextile.Calls.{tile_length}
use routercenter_old.Rfb.Hextile.Gives.{Gives, then-Gives, either-Gives, wait-Gives}

abbrev pub with_bytes : ℕ → Rfb → Rfb
with_bytes n r = with_fbu (λ u. record u { bytes = n }) r

-- What has been measured has come; else only what is expected is written down.
unfoldable pub Ready : ℕ → Rfb → Bool → Rfb → Type 0
Ready sub r true r' = (n : ℕ) × (r' ≡ with_bytes n r)
Ready sub r false r' =
    (r' ≡ with_bytes (tile_length sub r) r) × (r.sock.rqi + tile_length sub r ≤ length r.sock.rq)

all_there :
    (sub n : ℕ) (r : Rfb)
    → n ≡ tile_length sub r
    → r.sock.rqi + n ≤ length r.sock.rq
    → Ready sub r false (with_bytes n r)
unfolding Ready
all_there sub n r e le = (ap (λ b. with_bytes b r) e, omega (arith, e, le))

-- The last wait.
expect-Gives :
    (sub n : ℕ) (r : Rfb)
    → n ≡ tile_length sub r
    → Gives (Ready sub r) (wait (some (pos n)) (pos 0) (with_bytes n r))
unfolding Ready
expect-Gives sub n r e = wait-Gives n (with_bytes n r) (Ready sub r) (n, refl) (all_there sub n r e)

pub length_cells :
    (sub : ℕ) (r : Rfb)
    → flag sub 0 ≡ true
    → tile_length sub r ≡ 1 + hex_w r.fbu * hex_h r.fbu * r.fb_bpp
unfolding tile_length
length_cells sub r e = rw e refl

pub length_colors :
    (sub : ℕ) (r : Rfb)
    → flag sub 0 ≡ false
    → flag sub 3 ≡ false
    → tile_length sub r ≡ color_bytes sub r.fb_bpp
unfolding tile_length
length_colors sub r e e' = rw (e, e') refl

pub length_parts :
    (sub n : ℕ) (r : Rfb)
    → flag sub 0 ≡ false
    → flag sub 3 ≡ true
    → as_byte (read r.sock.rq (r.sock.rqi + color_bytes sub r.fb_bpp)) ≡ n
    → tile_length sub r ≡ color_bytes sub r.fb_bpp + 1 + n * part_bytes sub r.fb_bpp
unfolding tile_length
length_parts sub n r e e' k = rw (e, e', k) refl

counted-Gives :
    (sub : ℕ) (r : Rfb) (count : Option ℕ)
    → flag sub 0 ≡ false
    → flag sub 3 ≡ true
    → read r.sock.rq (r.sock.rqi + color_bytes sub r.fb_bpp) ≡ count
    → r.sock.rqi + (color_bytes sub r.fb_bpp + 1) ≤ length r.sock.rq
    → Gives (Ready sub r) (measure_with sub count (with_bytes (color_bytes sub r.fb_bpp + 1) r))
unfolding measure_with
counted-Gives sub r none e e' there le =
    all_there sub (color_bytes sub r.fb_bpp + 1) r
      (omega (arith, length_parts sub 0 r e e' (ap as_byte there))) le
counted-Gives sub r (some n) e e' there le =
    then-Gives (Ready sub r) _ _ (with_bytes (color_bytes sub r.fb_bpp + 1) r) (
      expect-Gives sub (color_bytes sub r.fb_bpp + 1 + n * part_bytes sub r.fb_bpp) r
        (sym (length_parts sub n r e e' (ap as_byte there))))

count_parts-Gives :
    (sub : ℕ) (r : Rfb)
    → flag sub 0 ≡ false
    → flag sub 3 ≡ true
    → r.sock.rqi + (color_bytes sub r.fb_bpp + 1) ≤ length r.sock.rq
    → Gives (Ready sub r) (count_parts sub (with_bytes (color_bytes sub r.fb_bpp + 1) r))
unfolding count_parts
count_parts-Gives sub r e e' le =
    let before : r.sock.rqi + color_bytes sub r.fb_bpp
        ≡ r.sock.rqi + (color_bytes sub r.fb_bpp + 1) - 1 =
      omega arith in
    counted-Gives sub r _ e e' (ap (λ i. read r.sock.rq i) before) le

measure_parts-Gives :
    (sub : ℕ) (r : Rfb)
    → flag sub 0 ≡ false
    → flag sub 3 ≡ true
    → Gives (Ready sub r) (measure_parts sub r)
unfolding measure_parts Ready
measure_parts-Gives sub r e e' =
    let size = color_bytes sub r.fb_bpp + 1 in
    let r' = with_bytes size r in
    then-Gives (Ready sub r) _ _ r (
      then-Gives (Ready sub r) _ _ r' (
        wait-Gives size r'
          (λ short r''. Gives (Ready sub r) ((if short then pure true else count_parts sub) r''))
          (size, refl) (λ le. count_parts-Gives sub r e e' le)))

pub measure-Gives : (sub : ℕ) (r : Rfb) → Gives (Ready sub r) (measure sub r)
unfolding measure
measure-Gives sub r =
    either-Gives (Ready sub r) (flag sub 0) _ _ r
      (λ e. then-Gives (Ready sub r) _ _ r (expect-Gives sub _ r (sym (length_cells sub r e))))
      (λ e. either-Gives (Ready sub r) (flag sub 3) _ _ r (measure_parts-Gives sub r e) (λ e'.
        then-Gives (Ready sub r) _ _ r (expect-Gives sub _ r (sym (length_colors sub r e e')))))
