-- ===== src/Vt100/Keeps.antt =====
-- What the operations on the screen keep is kept by all that is written to the terminal.
use routercenter_old.Prelude.{
  ℕ, ◌-◌, Bool, true, false, ◌&&◌, ◌||◌, List, [], ◌∷◌, ◌++◌, length, get_or, ltb, leb, ◌==◌,
  if◌then◌else◌,
}
use routercenter_old.Vt100.{
  Attr, Terminal, scroll, clrtoeol, clrtobot, clear, move, addch, attron, fgset, bgset, standend,
  attrset,
}
use routercenter_old.Vt100.Write.{
  line_feed, rendition, renditions, with_state, command, parameter, escape, control_sequence,
  in_state, write_char, write,
}

if_both {ℓ κ} :
    {A : Type ℓ} (P : A → Type κ) (b : Bool) {x y : A} → P x → P y → P (if b then x else y)
if_both P true h k = h
if_both P false h k = k

module _ {κ} (P : Terminal → Type κ)
    (same : (a : Attr) (n : ℕ) (xs : List ℕ) (t : Terminal)
      → P t
      → P (record t { c_attr = a; esc_state = n; csi_parms = xs }))
    (moved : (r c : ℕ) (t : Terminal) → P t → P (move r c t))
    (fed : (t : Terminal) → P t → P (scroll t)) (eol : (t : Terminal) → P t → P (clrtoeol t))
    (bottom : (t : Terminal) → P t → P (clrtobot t)) (cleared : (t : Terminal) → P t → P (clear t))
    (added : (ch : ℕ) (t : Terminal) → P t → P (addch ch t)) where
  rendition-keeps : (x : ℕ) (t : Terminal) → P t → P (rendition x t)
  unfolding rendition attron fgset bgset standend attrset
  rendition-keeps x t s =
      let k : (a : Attr) → P (record t { c_attr = a }) = λ a. same a t.esc_state t.csi_parms t s in
      if_both P (x == 0) (k _) (
        if_both P (x == 1) (k _) (
          if_both P (x == 30) (k _) (
            if_both P (x == 31) (k _) (
              if_both P (x == 32) (k _) (
                if_both P (x == 33) (k _) (
                  if_both P (x == 34) (k _) (
                    if_both P (x == 35) (k _) (
                      if_both P (x == 36) (k _) (
                        if_both P (x == 37) (k _) (
                          if_both P (x == 40) (k _) (
                            if_both P (x == 41) (k _) (
                              if_both P (x == 42) (k _) (
                                if_both P (x == 44) (k _) (
                                  if_both P (x == 45) (k _) (
                                    if_both P (x == 46) (k _)
                                      (if_both P (x == 47) (k _) s))))))))))))))))

  renditions-keeps : (xs : List ℕ) (t : Terminal) → P t → P (renditions xs t)
  unfolding renditions
  renditions-keeps [] t s = s
  renditions-keeps (x ∷ xs) t s = renditions-keeps xs (rendition x t) (rendition-keeps x t s)

  state-keeps : (n : ℕ) (t : Terminal) → P t → P (with_state n t)
  state-keeps n t s = same t.c_attr n t.csi_parms t s

  parms-keeps : (xs : List ℕ) (t : Terminal) → P t → P (record t { csi_parms = xs })
  parms-keeps xs t s = same t.c_attr t.esc_state xs t s

  command-keeps : (ch : ℕ) (t : Terminal) → P t → P (command ch t)
  unfolding command
  command-keeps ch t s =
      let m : (r c : ℕ) → P (move r c t) = λ r c. moved r c t s in
      if_both P (ch == 65) (m _ _) (
        if_both P (ch == 66) (m _ _) (
          if_both P (ch == 67) (m _ _) (
            if_both P (ch == 99) s (
              if_both P (ch == 68) (m _ _) (
                if_both P (ch == 102 || ch == 72)
                  (moved _ _ _ (parms-keeps (t.csi_parms ++ 0 ∷ []) t s))
                  (if_both P (ch == 74)
                    (if_both P (get_or t.csi_parms 0 0 == 0) (bottom t s) (
                      if_both P (get_or t.csi_parms 0 0 == 2) (moved 0 0 (clear t) (cleared t s))
                        s))
                    (if_both P (ch == 109) (renditions-keeps t.csi_parms t s) (
                      if_both P (ch == 114) s (
                        if_both P (ch == 91) (state-keeps 4 t s)
                          (if_both P (ch == 103) s (parms-keeps [] t s)))))))))))

  parameter-keeps : (ch : ℕ) (t : Terminal) → P t → P (parameter ch t)
  unfolding parameter
  parameter-keeps ch t s = if_both P (leb 48 ch && leb ch 57) (parms-keeps _ t s) (
      if_both P (ch == 59) (if_both P (ltb (length t.csi_parms) 17) (parms-keeps _ t s) s)
        (command-keeps ch (with_state 0 t) (state-keeps 0 t s)))

  escape-keeps : (ch : ℕ) (t : Terminal) → P t → P (escape ch t)
  unfolding escape
  escape-keeps ch t s =
      if_both P (ch == 91) (state-keeps 2 t s)
        (if_both P (ch == 61 || (ch == 62 || ch == 72)) (state-keeps 0 t s) s)

  control_sequence-keeps : (ch : ℕ) (t : Terminal) → P t → P (control_sequence ch t)
  unfolding control_sequence
  control_sequence-keeps ch t s = if_both P (ch == 75) (eol _ (state-keeps 0 t s)) (
      if_both P (ch == 72) (moved 0 0 _ (state-keeps 0 t s)) (
        if_both P (ch == 74) (bottom _ (state-keeps 0 t s)) (
          if_both P (ch == 63) (state-keeps 5 t s)
            (parameter-keeps ch _ (same t.c_attr 3 (0 ∷ []) t s)))))

  in_state-keeps : (state ch : ℕ) (t : Terminal) → P t → P (in_state state ch t)
  unfolding in_state
  in_state-keeps state ch t s = if_both P (state == 0) (added ch t s) (
      if_both P (state == 1) (escape-keeps ch t s) (
        if_both P (state == 2) (control_sequence-keeps ch t s) (
          if_both P (state == 3) (parameter-keeps ch t s) (
            if_both P (state == 4) (state-keeps 0 t s) (
              if_both P (state == 5) (same t.c_attr 6 (ch ∷ []) t s)
                (if_both P (state == 6) (state-keeps 0 t s) s))))))

  line_feed-keeps : (t : Terminal) → P t → P (line_feed t)
  unfolding line_feed
  line_feed-keeps t s = if_both P (leb (t.ht - 1) t.row) (moved _ _ _ (fed t s)) (moved _ _ t s)

  write_char-keeps : (ch : ℕ) (t : Terminal) → P t → P (write_char ch t)
  unfolding write_char
  write_char-keeps ch t s = if_both P (ch == 0 || (ch == 127 || ch == 7)) s (
      if_both P (ch == 97 || (ch == 8 || (ch == 9 || ch == 13))) (added ch t s) (
        if_both P (ch == 10 || (ch == 11 || ch == 12)) (line_feed-keeps t s) (
          if_both P (ch == 24 || ch == 26) (state-keeps 0 t s) (
            if_both P (ch == 27) (state-keeps 1 t s)
              (if_both P (ch == 155) (state-keeps 2 t s) (in_state-keeps t.esc_state ch t s))))))

  pub write-keeps : (chs : List ℕ) (t : Terminal) → P t → P (write chs t)
  unfolding write
  write-keeps [] t s = s
  write-keeps (ch ∷ chs) t s = write-keeps chs (write_char ch t) (write_char-keeps ch t s)
