-- ===== src/Base64/Chars.antt =====
-- The two tables of base64.js against one another, and the bits gathered by the decoder.
use Prim.Native.Nat.{bit_or}
use routercenter_old.Prelude.{
  ℕ, ◌+◌, ◌*◌, ◌/◌, ◌%◌, ◌<◌, ◌≡◌, Bool, true, false, not, some, List, [], ◌∷◌, arith, ◌==◌, ==_iff,
  get_or, refl,
}
use routercenter_old.Prelude.Table.{passes_below, passes_below-at}
use routercenter_old.Base64.{to_base64_table, to_base64, from_base64, base64_pad, encode}

-- The char for a six-bit value.
pub char : ℕ → ℕ
unfolding to_base64_table
char v = get_or to_base64_table v 0

reads_back : ℕ → Bool
reads_back v = elim (from_base64 (char v)) [ some w ↦ w == v | _ ↦ false ]

writes_char : ℕ → Bool
writes_char v = elim (to_base64 v) [ c ∷ [] ↦ c == char v | _ ↦ false ]

reads_back_table : passes_below reads_back 64 ≡ true
unfolding passes_below reads_back char from_base64
reads_back_table = refl

writes_char_table : passes_below writes_char 65 ≡ true
unfolding passes_below writes_char char to_base64
writes_char_table = refl

no_pad_table : passes_below (λ v. not (char v == base64_pad)) 64 ≡ true
unfolding passes_below char
no_pad_table = refl

pub from_base64-char : (v : ℕ) → v < 64 → from_base64 (char v) ≡ some v
unfolding reads_back
from_base64-char v h = ground (arith, passes_below-at reads_back 64 reads_back_table v h)

pub to_base64-char : (v : ℕ) → v < 65 → to_base64 v ≡ char v ∷ []
unfolding writes_char
to_base64-char v h = ground (arith, passes_below-at writes_char 65 writes_char_table v h)

pub char-ne-pad : (v : ℕ) → v < 64 → (char v == base64_pad) ≡ false
char-ne-pad v h = ground (arith, passes_below-at _ 64 no_pad_table v h)

-- `|` puts six bits below those that are left: nothing overlaps, so it adds.
bit_or_table : passes_below (λ n. bit_or (n / 64 * 64) (n % 64) == n) 4096 ≡ true
unfolding passes_below
bit_or_table = refl

pub bit_or-eq-add : (d c : ℕ) → d < 64 → c < 64 → bit_or (d * 64) c ≡ d * 64 + c
bit_or-eq-add d c hd hc =
    let high : (d * 64 + c) / 64 ≡ d = omega arith in
    let low : (d * 64 + c) % 64 ≡ c = omega arith in
    let at_sum =
      (==_iff (bit_or ((d * 64 + c) / 64 * 64) ((d * 64 + c) % 64)) (d * 64 + c)).0
        (passes_below-at _ 4096 bit_or_table (d * 64 + c) (omega arith)) in
    rw (high, low) at at_sum

-- What `encode` writes for bytes, by the chars of the six-bit values.
module _ (a b c : ℕ) (ha : a < 256) (hb : b < 256) (hc : c < 256) (rest : List ℕ) where
  pub encode-three :
      encode (a ∷ b ∷ c ∷ rest)
      ≡ char (a / 4)
        ∷ char (a % 4 * 16 + b / 16)
        ∷ char (b % 16 * 4 + c / 64)
        ∷ char (c % 64)
        ∷ encode rest
  unfolding encode
  encode-three = rw (
    to_base64-char (a / 4) (omega arith),
    to_base64-char (a % 4 * 16 + b / 16) (omega arith),
    to_base64-char (b % 16 * 4 + c / 64) (omega arith),
    to_base64-char (c % 64) (omega arith),
  )

module _ (a b : ℕ) (ha : a < 256) (hb : b < 256) where
  pub encode_two :
      encode (a ∷ b ∷ [])
      ≡ char (a / 4) ∷ char (a % 4 * 16 + b / 16) ∷ char (b % 16 * 4) ∷ base64_pad ∷ []
  unfolding encode char
  encode_two = rw (
    to_base64-char (a / 4) (omega arith),
    to_base64-char (a % 4 * 16 + b / 16) (omega arith),
    to_base64-char (b % 16 * 4) (omega arith),
    to_base64-char 64 (omega arith),
  )

pub encode_one :
    (a : ℕ)
    → a < 256
    → encode (a ∷ []) ≡ char (a / 4) ∷ char (a % 4 * 16) ∷ base64_pad ∷ base64_pad ∷ []
unfolding encode char
encode_one a ha = rw (
  to_base64-char (a / 4) (omega arith),
  to_base64-char (a % 4 * 16) (omega arith),
  to_base64-char 64 (omega arith),
)
