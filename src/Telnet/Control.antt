-- ===== src/Telnet/Control.antt =====
-- What the keys of the telnet terminal put into its buffer while Ctrl is down.
use routercenter_old.Prelude.{ℕ, ◌≡◌, Bool, true, ◌&&◌, length, none, List, [], ◌∷◌, ltb, arith}
use routercenter_old.Telnet.Keys.{control_char, key_chars}

abbrev pub all_below : ℕ → List ℕ → Bool
all_below n [] = true
all_below n (c ∷ cs) = ltb c n && all_below n cs

-- With Ctrl down, every keysym below 128 puts exactly one char into the buffer, and that char is a
-- control char, a code below 32.
key_chars-IsControl :
    (keysym : ℕ)
    → ltb keysym 128 ≡ true
    → (length (key_chars keysym true) ≡ 1) × (all_below 32 (key_chars keysym true) ≡ true)
unfolding key_chars control_char
key_chars-IsControl keysym h = ground arith

-- With Ctrl down, a keysym below 128 that is no control key is not left out: it puts the same char
-- into the buffer as Ctrl and @ do.
unknown_control :
    (keysym : ℕ)
    → ltb keysym 128 ≡ true
    → control_char keysym ≡ none
    → key_chars keysym true ≡ key_chars 64 true
unfolding key_chars control_char
unknown_control keysym h k = ground arith
