-- ===== src/Vt100/Sequences.antt =====
-- The control sequences that `write` reads: their parameters, and what follows an unknown escape.
use routercenter_old.Prelude.{
  ℕ, ◌+◌, ◌-◌, ◌*◌, ◌≤◌, ◌≡◌, refl, ap, ◌∙◌, Bool, true, not, ◌&&◌, ◌||◌, List, [], ◌∷◌, ◌++◌, map,
  length, length-append, append_assoc, append-nil, ltb, leb, ◌==◌, arith,
}
use routercenter_old.Vt100.{Terminal}
use routercenter_old.Vt100.Write.{
  change_last, parameter, escape, control_sequence, in_state, write_char, write, with_state,
}

abbrev pub is_digit : ℕ → Bool
is_digit c = leb 48 c && leb c 57

abbrev pub all_digits : List ℕ → Bool
all_digits [] = true
all_digits (c ∷ cs) = is_digit c && all_digits cs

abbrev pub all_numbers : List (List ℕ) → Bool
all_numbers [] = true
all_numbers (n ∷ ns) = all_digits n && all_numbers ns

-- The number that digits stand for, behind the number `x`.
abbrev pub value : ℕ → List ℕ → ℕ
value x [] = x
value x (c ∷ cs) = value (x * 10 + (c - 48)) cs

-- Each further number with the separator before it.
abbrev pub further : List (List ℕ) → List ℕ
further [] = []
further (n ∷ ns) = (59 ∷ n) ++ further ns

abbrev pub reading : List ℕ → Terminal → Terminal
reading ps t = record t { esc_state = 3; csi_parms = ps }

pub write-append : (xs ys : List ℕ) (t : Terminal) → write (xs ++ ys) t ≡ write ys (write xs t)
unfolding write
write-append [] ys t = refl
write-append (x ∷ xs) ys t = write-append xs ys (write_char x t)

change_last-append :
    (f : ℕ → ℕ) (ps : List ℕ) (x : ℕ) → change_last f (ps ++ x ∷ []) ≡ ps ++ f x ∷ []
unfolding change_last
change_last-append f [] x = refl
change_last-append f (p ∷ []) x = refl
change_last-append f (p ∷ q ∷ ps) x = ap (λ l. p ∷ l) (change_last-append f (q ∷ ps) x)

write_char-digit :
    (c x : ℕ) (ps : List ℕ) (t : Terminal)
    → is_digit c ≡ true
    → write_char c (reading (ps ++ x ∷ []) t) ≡ reading (ps ++ (x * 10 + (c - 48)) ∷ []) t
unfolding write_char in_state parameter
write_char-digit c x ps t h = ground (arith, change_last-append (λ y. y * 10 + (c - 48)) ps x)

write-digits :
    (cs : List ℕ) (x : ℕ) (ps : List ℕ) (t : Terminal)
    → all_digits cs ≡ true
    → write cs (reading (ps ++ x ∷ []) t) ≡ reading (ps ++ value x cs ∷ []) t
unfolding write
write-digits [] x ps t h = refl
write-digits (c ∷ cs) x ps t h =
    rw (write_char-digit c x ps t (ground arith))
      (write-digits cs (x * 10 + (c - 48)) ps t (ground arith))

write-separator :
    (ps : List ℕ) (t : Terminal)
    → ltb (length ps) 17 ≡ true
    → write_char 59 (reading ps t) ≡ reading (ps ++ 0 ∷ []) t
unfolding write_char in_state parameter
write-separator ps t h = rw h refl

write-further :
    (ns : List (List ℕ)) (ps : List ℕ) (t : Terminal)
    → all_numbers ns ≡ true
    → length ps + length ns ≤ 17
    → write (further ns) (reading ps t) ≡ reading (ps ++ map (value 0) ns) t
unfolding write
write-further [] ps t h k = rw (append-nil ps) refl
write-further (n ∷ ns) ps t h k =
    rw
      (
        write-append n (further ns),
        write-separator ps t (ground arith),
        write-digits n 0 ps t (ground arith),
        write-further ns (ps ++ value 0 n ∷ []) t (ground arith)
            (omega (arith, k, length-append ps (value 0 n ∷ []))),
        append_assoc ps,
      )
      refl

-- ESC [ before a list of at most 17 decimal numbers separated by ';', the first of at least one digit,
-- is read, from any state, as the list of their values; the screen is not changed.
pub write-parameters :
    (c : ℕ) (cs : List ℕ) (ns : List (List ℕ)) (t : Terminal)
    → all_digits (c ∷ cs) ≡ true
    → all_numbers ns ≡ true
    → length ns ≤ 16
    → write (27 ∷ 91 ∷ c ∷ (cs ++ further ns)) t ≡ reading (value 0 (c ∷ cs) ∷ map (value 0) ns) t
unfolding write
write-parameters c cs ns t h k l =
    let first : write_char c (with_state 2 t) ≡ reading ((0 + (c - 48)) ∷ []) t =
      unfold write_char in_state control_sequence parameter change_last in ground arith in
    let opened : write_char 91 (write_char 27 t) ≡ with_state 2 t =
      unfold write_char in_state escape in refl in
    let rest = cs ++ further ns in
    ap (λ u. write rest (write_char c u)) opened
    ∙ (ap (λ u. write rest u) first
        ∙ (write-append cs (further ns) (reading ((0 + (c - 48)) ∷ []) t)
            ∙ (ap (λ u. write (further ns) u) (write-digits cs (0 + (c - 48)) [] t (ground arith))
                ∙ write-further ns (value (0 + (c - 48)) cs ∷ []) t k (omega arith))))

-- A char with no meaning after ESC.
abbrev pub is_unknown : ℕ → Bool
is_unknown ch =
    leb 32 ch
    && (leb ch 126 && not (ch == 91 || (ch == 61 || (ch == 62 || (ch == 72 || ch == 97)))))

abbrev pub all_unknown : List ℕ → Bool
all_unknown [] = true
all_unknown (ch ∷ chs) = is_unknown ch && all_unknown chs

waits :
    (chs : List ℕ) (t : Terminal)
    → all_unknown chs ≡ true
    → write chs (with_state 1 t) ≡ with_state 1 t
unfolding write
waits [] t h = refl
waits (ch ∷ chs) t h =
    let stays : write_char ch (with_state 1 t) ≡ with_state 1 t =
      unfold write_char in_state escape in ground arith in
    rw stays (waits chs t (ground arith))

-- After ESC, printable chars other than '[', '=', '>', 'H' and 'a', however many, do nothing: they are
-- not shown, and the terminal still waits for the rest of the sequence.
pub unknown_escape :
    (chs : List ℕ) (t : Terminal) → all_unknown chs ≡ true → write (27 ∷ chs) t ≡ with_state 1 t
unfolding write write_char
unknown_escape chs t h = waits chs t h
