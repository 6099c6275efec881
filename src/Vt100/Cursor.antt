-- ===== src/Vt100/Cursor.antt =====
-- The sequence that places the cursor, from its chars to the cursor.
use routercenter_old.Prelude.{
  ℕ, ◌-◌, ◌≤◌, ◌≡◌, refl, ap, ◌∙◌, true, List, [], ◌∷◌, ◌++◌, leb, if◌then◌else◌, arith,
}
use Prim.Native.Nat.{min}
use routercenter_old.Vt100.{Terminal, move}
use routercenter_old.Vt100.Write.{write, write_char, in_state, parameter, command}
use routercenter_old.Vt100.Sequences.{
  all_digits, value, further, reading, write-append, write-parameters,
}

clamp : (n size : ℕ) → 1 ≤ size → (if leb size n then size - 1 else n) ≡ min n (size - 1)
clamp n size h = ground arith

-- ESC [ R ; C H, with decimal numbers R and C of at least one digit, written in any state, places the
-- cursor in row R and column C, counted from 1, or on the last row or column if there are fewer; 0
-- counts as 1. The text and the attributes of the screen are not changed, nor is the attribute of what is
-- written next, and the sequence is over.
pub write-position :
    (r : ℕ) (rs : List ℕ) (c : ℕ) (cs : List ℕ) (t : Terminal)
    → all_digits (r ∷ rs) ≡ true
    → all_digits (c ∷ cs) ≡ true
    → 1 ≤ t.ht
    → 1 ≤ t.wd
    → ((write ((27 ∷ 91 ∷ r ∷ (rs ++ further ((c ∷ cs) ∷ []))) ++ 72 ∷ []) t).row
        ≡ min (value 0 (r ∷ rs) - 1) (t.ht - 1))
      × ((write ((27 ∷ 91 ∷ r ∷ (rs ++ further ((c ∷ cs) ∷ []))) ++ 72 ∷ []) t).col
          ≡ min (value 0 (c ∷ cs) - 1) (t.wd - 1))
      × ((write ((27 ∷ 91 ∷ r ∷ (rs ++ further ((c ∷ cs) ∷ []))) ++ 72 ∷ []) t).text ≡ t.text)
      × ((write ((27 ∷ 91 ∷ r ∷ (rs ++ further ((c ∷ cs) ∷ []))) ++ 72 ∷ []) t).attrs ≡ t.attrs)
      × ((write ((27 ∷ 91 ∷ r ∷ (rs ++ further ((c ∷ cs) ∷ []))) ++ 72 ∷ []) t).c_attr ≡ t.c_attr)
      × ((write ((27 ∷ 91 ∷ r ∷ (rs ++ further ((c ∷ cs) ∷ []))) ++ 72 ∷ []) t).esc_state ≡ 0)
write-position r rs c cs t h k high wide =
    let chs = 27 ∷ 91 ∷ r ∷ (rs ++ further ((c ∷ cs) ∷ [])) in
    let u : Terminal = reading (value 0 (r ∷ rs) ∷ value 0 (c ∷ cs) ∷ []) t in
    let read : write (chs ++ 72 ∷ []) t ≡ write (72 ∷ []) u =
      write-append chs (72 ∷ []) t
      ∙ ap (write (72 ∷ []))
          (write-parameters r rs ((c ∷ cs) ∷ []) t h (ground arith) (omega arith)) in
    let placed : Terminal = write (72 ∷ []) u in
    (
      ap (λ v. v.row) read
          ∙ unfold write write_char in_state parameter command move in clamp _ _ high,
      ap (λ v. v.col) read
          ∙ unfold write write_char in_state parameter command move in clamp _ _ wide,
      ap (λ v. v.text) read ∙ unfold write write_char in_state parameter command move in refl,
      ap (λ v. v.attrs) read ∙ unfold write write_char in_state parameter command move in refl,
      ap (λ v. v.c_attr) read ∙ unfold write write_char in_state parameter command move in refl,
      ap (λ v. v.esc_state) read ∙ unfold write write_char in_state parameter command move in refl,
    )
