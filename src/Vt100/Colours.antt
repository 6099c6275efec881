-- ===== src/Vt100/Colours.antt =====
-- The colour codes of the command `m` against the numbering of the standard, in which bit 0 is red, bit 1
-- green and bit 2 blue; VT100.js has red in bit 2 and blue in bit 0.
use routercenter_old.Prelude.{
  ℕ, zero, suc, ◌+◌, ◌*◌, ◌/◌, ◌%◌, ◌<◌, ◌≡◌, refl, ◌==◌, if◌then◌else◌, arith,
}
use routercenter_old.Vt100.{Terminal, fgset, bgset}
use routercenter_old.Vt100.Write.{rendition}

abbrev pub standard_colour : ℕ → ℕ
standard_colour n = n % 2 * 4 + n / 2 % 2 * 2 + n / 4

-- The codes 30 to 37 set the foreground to the eight colours of the standard; the codes 40 to 47 set the
-- background to them, but 43 sets nothing, and 44 sets yellow, the colour of 43, in place of blue.
pub rendition-colour :
    (n : ℕ) (t : Terminal)
    → n < 8
    → ((rendition (30 + n) t).c_attr.fg ≡ standard_colour n)
      × ((rendition (40 + n) t).c_attr.bg ≡ (
          if n == 3 then t.c_attr.bg else if n == 4 then standard_colour 3 else standard_colour n))
unfolding rendition fgset bgset
rendition-colour zero t h = (refl, refl)
rendition-colour (suc zero) t h = (refl, refl)
rendition-colour (suc (suc zero)) t h = (refl, refl)
rendition-colour (suc (suc (suc zero))) t h = (refl, refl)
rendition-colour (suc (suc (suc (suc zero)))) t h = (refl, refl)
rendition-colour (suc (suc (suc (suc (suc zero))))) t h = (refl, refl)
rendition-colour (suc (suc (suc (suc (suc (suc zero)))))) t h = (refl, refl)
rendition-colour (suc (suc (suc (suc (suc (suc (suc zero))))))) t h = (refl, refl)
rendition-colour (suc (suc (suc (suc (suc (suc (suc (suc n)))))))) t h = absurd (omega (arith, h))
