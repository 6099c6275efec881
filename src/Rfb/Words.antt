-- ===== src/Rfb/Words.antt =====
-- Pieces of the handshake of statics/include/rfb.js: versions, security types and capabilities.
use routercenter_old.Prelude.{
  ℕ, zero, suc, ◌+◌, ◌-◌, ◌/◌, ◌%◌, Bool, true, false, ◌&&◌, ◌||◌, Option, none, some, List, [],
  ◌∷◌, ◌++◌, length, replicate, ltb, leb, ◌==◌, if◌then◌else◌,
}
use routercenter_old.Prelude.Int.{ℤ, pos, negsuc, ◌*ℤ◌, ltb_ℤ}
use routercenter_old.Prelude.Text.{codes}
use routercenter_old.Rfb.{M, ◌>>=◌, pure}
use routercenter_old.Rfb.Queue.{shift32, shift_str}

-- Texts by their codes, compared as `==` does.
unfoldable pub same_text : List ℕ → List ℕ → Bool
same_text [] [] = true
same_text (x ∷ xs) (y ∷ ys) = x == y && same_text xs ys
same_text _ _ = false

-- The version that the server's text stands for, in tenths.
pub data ServerVersion : Type 0 where
  repeater invalid : ServerVersion
  version_of : ℕ → ServerVersion

unfoldable pub server_version : List ℕ → ServerVersion
unfolding same_text
server_version text =
    if same_text text (codes "000.000")
    then repeater
    else if same_text text (codes "003.003")
        || (same_text text (codes "003.006") || same_text text (codes "003.889"))
    then version_of 33
    else if same_text text (codes "003.007")
    then version_of 37
    else if same_text text (codes "003.008")
        || (same_text text (codes "004.000") || same_text text (codes "004.001"))
    then version_of 38
    else invalid

-- "RFB 00x.00y\n" for the version x.y
unfoldable pub client_version : ℕ → List ℕ
client_version v = codes "RFB 00" ++ (48 + v / 10) ∷ codes ".00" ++ (48 + v % 10) ∷ 10 ∷ []

-- The security type that is taken: of those up to 16, and 22, the greatest. A missing byte never is.
unfoldable pub choose_type : ℕ → List (Option ℕ) → ℕ
choose_type scheme [] = scheme
choose_type scheme (none ∷ types) = choose_type scheme types
choose_type scheme (some t ∷ types) =
    choose_type (if ltb scheme t && (leb t 16 || t == 22) then t else scheme) types

-- `n` strings of capabilities, read one after the other: a number and `len` chars.
unfoldable pub capabilities : ℕ → ℕ → M (List (Option ℤ × List ℕ))
capabilities zero len = pure []
capabilities (suc n) len = do
  number ← shift32
  name ← shift_str (some (pos len))
  rest ← capabilities n len
  pure ((number, name) ∷ rest)

-- What the last capability with the number 0 is called: its vendor and its signature in one.
unfoldable pub tunnel_zero : List (Option ℤ × List ℕ) → Option (List ℕ) → Option (List ℕ)
tunnel_zero [] found = found
tunnel_zero ((some (pos zero), name) ∷ rest) found = tunnel_zero rest (some name)
tunnel_zero ((number, name) ∷ rest) found = tunnel_zero rest found

unfoldable pub offers : List ℕ → List (Option ℤ × List ℕ) → Bool
unfolding same_text
offers text [] = false
offers text ((number, name) ∷ rest) = same_text text name || offers text rest

-- The number of rounds of a counted loop: none if the count is negative or not a number.
abbrev pub rounds : Option ℤ → ℕ
rounds none = 0
rounds (some (pos n)) = n
rounds (some (negsuc n)) = 0

abbrev pub is_number : ℕ → Option ℤ → Bool
is_number n (some (pos m)) = m == n
is_number n _ = false

abbrev pub times_16 : Option ℤ → Option ℤ
times_16 none = none
times_16 (some n) = some (pos 16 *ℤ n)

abbrev pub is_above_0 : Option ℤ → Bool
is_above_0 none = false
is_above_0 (some n) = ltb_ℤ (pos 0) n

abbrev pub as_number : Option ℕ → Option ℤ
as_number none = none
as_number (some n) = some (pos n)

-- `text.split(sep)`, for a separator of one char
unfoldable pub split_at : ℕ → List ℕ → List (List ℕ)
split_at sep [] = [] ∷ []
split_at sep (c ∷ cs) =
    let parts = split_at sep cs in
    if c == sep then [] ∷ parts else elim parts [ [] ↦ (c ∷ []) ∷ [] | p ∷ ps ↦ (c ∷ p) ∷ ps ]

unfoldable pub join_with : ℕ → List ℕ → List (List ℕ) → List ℕ
join_with sep p [] = p
join_with sep p (q ∷ qs) = p ++ sep ∷ join_with sep q qs

-- A text filled up with chars 0.
abbrev pub padded : ℕ → List ℕ → List ℕ
padded size text = text ++ replicate (size - length text) 0
