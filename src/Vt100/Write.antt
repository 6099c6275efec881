-- ===== src/Vt100/Write.antt =====
-- `write` of VT100.js: the chars that arrive, the escape sequences among them interpreted. The call of
-- `refresh` at its end is not modelled: it makes the page's text, and adds the bold flag to the
-- attributes of cells that stand out, a flag that nothing in `write` sets.
use routercenter_old.Prelude.{
  ℕ, ◌+◌, ◌-◌, ◌*◌, ◌&&◌, ◌||◌, List, [], ◌∷◌, ◌++◌, length, get_or, ltb, leb, ◌==◌, if◌then◌else◌,
}
use routercenter_old.Vt100.{
  Terminal, scroll, clrtoeol, clrtobot, clear, move, addch, attron, fgset, bgset, standend,
}

-- '\n', '\v' and '\f'
unfoldable pub line_feed : Terminal → Terminal
unfolding scroll move
line_feed t = if leb (t.ht - 1) t.row then move (t.ht - 1) 0 (scroll t) else move (t.row + 1) 0 t

-- One parameter of `m`. The case of 43 is missing, and of the two cases of 44 the first one is taken.
unfoldable pub rendition : ℕ → Terminal → Terminal
unfolding attron fgset bgset standend
rendition x t =
    if x == 0
    then bgset t.bkgd.bg (fgset t.bkgd.fg (standend t))
    else if x == 1
    then attron 16 t
    else if x == 30
    then fgset 0 t
    else if x == 31
    then fgset 4 t
    else if x == 32
    then fgset 2 t
    else if x == 33
    then fgset 6 t
    else if x == 34
    then fgset 1 t
    else if x == 35
    then fgset 5 t
    else if x == 36
    then fgset 3 t
    else if x == 37
    then fgset 7 t
    else if x == 40
    then bgset 0 t
    else if x == 41
    then bgset 4 t
    else if x == 42
    then bgset 2 t
    else if x == 44
    then bgset 6 t
    else if x == 45
    then bgset 5 t
    else if x == 46
    then bgset 3 t
    else if x == 47
    then bgset 7 t
    else t

unfoldable pub renditions : List ℕ → Terminal → Terminal
renditions [] t = t
renditions (x ∷ xs) t = renditions xs (rendition x t)

abbrev pub at_least_1 : ℕ → ℕ
at_least_1 n = if n == 0 then 1 else n

-- `x = parms.pop(); parms.push(f(x))`
unfoldable pub change_last : (ℕ → ℕ) → List ℕ → List ℕ
change_last f [] = []
change_last f (x ∷ []) = f x ∷ []
change_last f (x ∷ y ∷ ys) = x ∷ change_last f (y ∷ ys)

abbrev pub with_state : ℕ → Terminal → Terminal
with_state n t = record t { esc_state = n }

-- The letter that ends a control sequence.
unfoldable pub command : ℕ → Terminal → Terminal
unfolding move clrtobot clear renditions
command ch t =
    let count = at_least_1 (get_or t.csi_parms 0 0) in
    if ch == 65
    then move (t.row - count) t.col t
    else if ch == 66
    then move (t.row + count) t.col t
    else if ch == 67
    then move t.row (t.col + count) t
    else if ch == 99
    then t
    else if ch == 68
    then move t.row (t.col - count) t
    else if ch == 102 || ch == 72
    then (let u : Terminal = record t { csi_parms = t.csi_parms ++ 0 ∷ [] } in
        move (get_or u.csi_parms 0 0 - 1) (get_or u.csi_parms 1 0 - 1) u)
    else if ch == 74
    then (if get_or t.csi_parms 0 0 == 0
        then clrtobot t
        else if get_or t.csi_parms 0 0 == 2
        then move 0 0 (clear t)
        else t)
    else if ch == 109
    then renditions t.csi_parms t
    else if ch == 114
    then t
    else if ch == 91
    then with_state 4 t
    else if ch == 103
    then t
    else record t { csi_parms = [] }

-- In the parameters of a control sequence: digits, a separator, or the command.
unfoldable pub parameter : ℕ → Terminal → Terminal
unfolding change_last command
parameter ch t =
    if leb 48 ch && leb ch 57
    then record t { csi_parms = change_last (λ x. x * 10 + (ch - 48)) t.csi_parms }
    else if ch == 59
    then (if ltb (length t.csi_parms) 17 then record t { csi_parms = t.csi_parms ++ 0 ∷ [] } else t)
    else command ch (with_state 0 t)

-- After ESC.
unfoldable pub escape : ℕ → Terminal → Terminal
escape ch t =
    if ch == 91
    then with_state 2 t
    else if ch == 61 || (ch == 62 || ch == 72)
    then with_state 0 t
    else t

-- After CSI; a char that is none of the four goes on as the first of the parameters.
unfoldable pub control_sequence : ℕ → Terminal → Terminal
unfolding clrtoeol move clrtobot parameter
control_sequence ch t =
    if ch == 75
    then clrtoeol (with_state 0 t)
    else if ch == 72
    then move 0 0 (with_state 0 t)
    else if ch == 74
    then clrtobot (with_state 0 t)
    else if ch == 63
    then with_state 5 t
    else parameter ch (record t { csi_parms = 0 ∷ []; esc_state = 3 })

-- The char of a special mode is kept, and not used.
unfoldable pub in_state : ℕ → ℕ → Terminal → Terminal
unfolding addch escape control_sequence parameter
in_state state ch t =
    if state == 0
    then addch ch t
    else if state == 1
    then escape ch t
    else if state == 2
    then control_sequence ch t
    else if state == 3
    then parameter ch t
    else if state == 4
    then with_state 0 t
    else if state == 5
    then record t { csi_parms = ch ∷ []; esc_state = 6 }
    else if state == 6
    then with_state 0 t
    else t

-- 97 is the letter a, for which '\a' stands in JavaScript.
unfoldable pub write_char : ℕ → Terminal → Terminal
unfolding addch line_feed in_state
write_char ch t =
    if ch == 0 || (ch == 127 || ch == 7)
    then t
    else if ch == 97 || (ch == 8 || (ch == 9 || ch == 13))
    then addch ch t
    else if ch == 10 || (ch == 11 || ch == 12)
    then line_feed t
    else if ch == 24 || ch == 26
    then with_state 0 t
    else if ch == 27
    then with_state 1 t
    else if ch == 155
    then with_state 2 t
    else in_state t.esc_state ch t

unfoldable pub write : List ℕ → Terminal → Terminal
unfolding write_char
write [] t = t
write (ch ∷ chs) t = write chs (write_char ch t)
