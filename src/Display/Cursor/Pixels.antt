-- ===== src/Display/Cursor/Pixels.antt =====
-- Where the pixels of a cursor are in its file, in statics/include/display.js.
use routercenter_old.Prelude.{
  ℕ, zero, suc, ◌+◌, ◌-◌, ◌*◌, ◌≡◌, ◌<◌, refl, sym, ap, ◌∙◌, Option, none, some, List, [], ◌++◌,
  map, append_assoc, append-nil, length, length-append, ◌⊎◌, inl, inr, arith,
}
use routercenter_old.Display.Cursor.{side, header, cell, both, row, rows, masks, cursor_file}
use routercenter_old.Display.Cursor.Size.{Sized, cell-Sized, row-Sized, rows-Sized, length-masks}

-- Some bytes within a list, and how many are before them.
pub record Holds (o : Option (List (Option ℕ))) (i : ℕ) (part : List (Option ℕ)) : Type 0 where
  pub before : List (Option ℕ)
  pub behind : List (Option ℕ)
  pub there : o ≡ some (before ++ (part ++ behind))
  pub index : length before ≡ i

both-left :
    {o p : Option (List (Option ℕ))} {i n : ℕ} {part : List (Option ℕ)}
    → Holds o i part
    → Sized p n
    → Holds (both o p) i part
both-left {part = part} h k = record {
  before = h.before;
  behind = h.behind ++ k.bytes;
  there =
      rw (h.there, k.there)
        (ap some (
          append_assoc h.before (part ++ h.behind) k.bytes
          ∙ ap (λ z. h.before ++ z) (append_assoc part h.behind k.bytes)));
  index = h.index;
}

both-right :
    {o p : Option (List (Option ℕ))} {m i : ℕ} {part : List (Option ℕ)}
    → Sized o m
    → Holds p i part
    → Holds (both o p) (m + i) part
both-right {part = part} h k = record {
  before = h.bytes ++ k.before;
  behind = k.behind;
  there = rw (h.there, k.there) (ap some (sym (append_assoc h.bytes k.before (part ++ k.behind))));
  index = length-append h.bytes k.before ∙ rw (h.size, k.index) refl;
}

same-Holds :
    {o : Option (List (Option ℕ))} {i j : ℕ} {part : List (Option ℕ)}
    → i ≡ j
    → Holds o i part
    → Holds o j part
same-Holds e h = record {
  before = h.before;
  behind = h.behind;
  there = h.there;
  index = h.index ∙ e;
}

whole-Holds :
    {o : Option (List (Option ℕ))} {part : List (Option ℕ)} → o ≡ some part → Holds o 0 part
whole-Holds {part = part} e = record {
  before = [];
  behind = [];
  there = e ∙ ap some (sym (append-nil part));
  index = refl;
}

last_or_below : (y r : ℕ) → r < suc y → (r ≡ y) ⊎ (r < y)
last_or_below y r lt = ground arith

module _ (at : ℕ → ℕ → Option (List (Option ℕ))) (sized : (x y : ℕ) → Sized (at x y) 4) where
  row-Holds :
      (count x y k : ℕ) (part : List (Option ℕ))
      → k < count
      → at (x + k) y ≡ some part
      → Holds (row at count x y) (k * 4) part
  unfolding row
  row-Holds zero x y k part lt e = absurd (omega arith)
  row-Holds (suc count) x y zero part lt e =
      both-left (whole-Holds (ap (λ i. at i y) (omega arith) ∙ e))
        (row-Sized at sized count (x + 1) y)
  row-Holds (suc count) x y (suc k) part lt e = same-Holds (omega arith) (
      both-right (sized x y)
        (row-Holds count (x + 1) y k part (omega arith) (ap (λ i. at i y) (omega arith) ∙ e)))

  rows-Holds :
      (n y x r : ℕ) (part : List (Option ℕ))
      → x < n
      → r < y
      → at x r ≡ some part
      → Holds (rows at n y) (((y - 1 - r) * n + x) * 4) part
  unfolding rows
  rows-Holds n zero x r part lx lr e = absurd (omega arith)
  rows-Holds n (suc y) x r part lx lr e = elim (last_or_below y r lr) [
    | inl same ↦
        let none_above : suc y - 1 - r ≡ 0 = omega arith in
        same-Holds (rw none_above (omega arith)) (
          both-left
            (row-Holds n 0 y x part lx
              (ap (λ i. at i y) (omega arith) ∙ ap (λ j. at x j) (sym same) ∙ e))
            (rows-Sized at sized n y))
    | inr below ↦
        let one_more : suc y - 1 - r ≡ suc (y - 1 - r) = omega arith in
        same-Holds (rw one_more (omega arith))
          (both-right (row-Sized at sized n 0 y) (rows-Holds n y x r part lx below e))
  ]

-- In true colour, the four bytes of each pixel of the square that the cursor is made are in the file, the
-- rows from the last to the first, from byte 62 on.
pub cursor_file-Holds :
    (pixels mask : List (Option ℕ)) (hotx hoty w0 h0 x y : ℕ) (part : List (Option ℕ))
    → x < side w0 h0
    → y < side w0 h0
    → cell none pixels mask w0 h0 x y ≡ some part
    → Holds
        (cursor_file pixels mask hotx hoty w0 h0 none)
        (62 + ((side w0 h0 - 1 - y) * side w0 h0 + x) * 4)
        part
unfolding cursor_file header
cursor_file-Holds pixels mask hotx hoty w0 h0 x y part lx ly e =
    let n = side w0 h0 in
    both-right (record { bytes = map some (header n hotx hoty); there = refl; size = refl })
      (both-left
        (rows-Holds (cell none pixels mask w0 h0) (cell-Sized pixels mask w0 h0) n n x y part lx ly
          e)
        (record { bytes = masks n; there = refl; size = length-masks n }))
