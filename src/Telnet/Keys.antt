-- ===== src/Telnet/Keys.antt =====
-- `vt100.key_down` of wstelnet.js: the chars that a key puts into the terminal's key buffer.
use routercenter_old.Prelude.{
  ℕ, ◌-◌, Bool, ◌&&◌, Option, none, some, List, [], ◌∷◌, ◌++◌, ltb, leb, ◌==◌, if◌then◌else◌,
}
use routercenter_old.Telnet.Keysym.{get_keysym}

-- With Ctrl down: `ch` stays undefined for a key that is no control key.
unfoldable pub control_char : ℕ → Option ℕ
control_char keysym =
    if keysym == 64
    then some 0
    else if leb 97 keysym && leb keysym 122
    then some (keysym - 96)
    else if leb 91 keysym && leb keysym 95
    then some (keysym - 64)
    else none

-- `String.fromCharCode` of a number that is not there is the char 0.
abbrev pub from_char_code : Option ℕ → List ℕ
from_char_code none = 0 ∷ []
from_char_code (some c) = c ∷ []

-- Return, backspace, escape and the arrows; 27 91 is the prefix ESC [.
unfoldable pub special_chars : ℕ → List ℕ
special_chars keysym =
    if keysym == 65293
    then 10 ∷ []
    else if keysym == 65288
    then 8 ∷ []
    else if keysym == 65307
    then 27 ∷ []
    else if keysym == 65361
    then 27 ∷ 91 ∷ 68 ∷ []
    else if keysym == 65362
    then 27 ∷ 91 ∷ 65 ∷ []
    else if keysym == 65363
    then 27 ∷ 91 ∷ 67 ∷ []
    else if keysym == 65364
    then 27 ∷ 91 ∷ 66 ∷ []
    else []

unfoldable pub key_chars : ℕ → Bool → List ℕ
unfolding control_char special_chars
key_chars keysym ctrl =
    if ltb keysym 128
    then (if ctrl then from_char_code (control_char keysym) else keysym ∷ [])
    else special_chars keysym

-- `key_buf_.push(str)`, unless there is nothing to push
unfoldable pub key_down : Bool → ℕ → Bool → Bool → List (List ℕ) → List (List ℕ)
key_down gecko code shift ctrl buf =
    let str = key_chars (get_keysym gecko code shift) ctrl in
    elim str [ [] ↦ buf | c ∷ cs ↦ buf ++ (c ∷ cs) ∷ [] ]
