-- ===== src/Base64.antt =====
-- statics/include/base64.js: the codec of the text frames of a Websock. A string is the list of its
-- char codes. Shifts and masks are written as `/`, `*` and `%` by powers of two; the data are bytes,
-- so no 32-bit operation reaches the sign bit.
pub mod Chars
pub mod Length
pub mod RoundTrip
pub mod Legal
mod Tests
use Prim.Native.Nat.{bit_or}
use routercenter_old.Prelude.{
  ℕ, suc, ◌+◌, ◌-◌, ◌*◌, ◌/◌, ◌%◌, ◌^◌, Bool, Option, none, some, List, [], ◌∷◌, ◌++◌, ltb, leb,
  ◌==◌, if◌then◌else◌, length, get_elem?, drop, replicate,
}
use routercenter_old.Prelude.Text.{codes}
use routercenter_old.Prelude.Array.{read, write}
use routercenter_old.Prelude.Result.{Result, ok, err, reference_error, range_error}

unfoldable pub to_base64_table : List ℕ
to_base64_table = codes "ABCDEFGHIJKLMNOPQRSTUVWXYZabcdefghijklmnopqrstuvwxyz0123456789+/="

-- `base64Pad`, the sign `=`
abbrev pub base64_pad : ℕ
base64_pad = 61

-- What `result += toBase64Table[i]` appends: out of range, the word for the missing value.
unfoldable pub to_base64 : ℕ → List ℕ
unfolding to_base64_table
to_base64 i = elim (get_elem? to_base64_table i) [ none ↦ codes "undefined" | some c ↦ c ∷ [] ]

-- The loop takes three bytes at a time, and the branches after it the one or two that remain.
unfoldable pub encode : List ℕ → List ℕ
encode [] = []
encode (a ∷ []) = to_base64 (a / 4) ++ to_base64 (a % 4 * 16) ++ to_base64 64 ++ to_base64 64
encode (a ∷ b ∷ []) =
    to_base64 (a / 4) ++ to_base64 (a % 4 * 16 + b / 16) ++ to_base64 (b % 16 * 4) ++ to_base64 64
encode (a ∷ b ∷ c ∷ rest) =
    to_base64 (a / 4)
    ++ to_base64 (a % 4 * 16 + b / 16)
    ++ to_base64 (b % 16 * 4 + c / 64)
    ++ to_base64 (c % 64)
    ++ encode rest

-- -1 is `none`.
unfoldable pub to_binary_table : List (Option ℕ)
to_binary_table =
    none
    ∷ none
    ∷ none
    ∷ none
    ∷ none
    ∷ none
    ∷ none
    ∷ none
    ∷ none
    ∷ none
    ∷ none
    ∷ none
    ∷ none
    ∷ none
    ∷ none
    ∷ none
    ∷ none
    ∷ none
    ∷ none
    ∷ none
    ∷ none
    ∷ none
    ∷ none
    ∷ none
    ∷ none
    ∷ none
    ∷ none
    ∷ none
    ∷ none
    ∷ none
    ∷ none
    ∷ none
    ∷ none
    ∷ none
    ∷ none
    ∷ none
    ∷ none
    ∷ none
    ∷ none
    ∷ none
    ∷ none
    ∷ none
    ∷ none
    ∷ some 62
    ∷ none
    ∷ none
    ∷ none
    ∷ some 63
    ∷ some 52
    ∷ some 53
    ∷ some 54
    ∷ some 55
    ∷ some 56
    ∷ some 57
    ∷ some 58
    ∷ some 59
    ∷ some 60
    ∷ some 61
    ∷ none
    ∷ none
    ∷ none
    ∷ some 0
    ∷ none
    ∷ none
    ∷ none
    ∷ some 0
    ∷ some 1
    ∷ some 2
    ∷ some 3
    ∷ some 4
    ∷ some 5
    ∷ some 6
    ∷ some 7
    ∷ some 8
    ∷ some 9
    ∷ some 10
    ∷ some 11
    ∷ some 12
    ∷ some 13
    ∷ some 14
    ∷ some 15
    ∷ some 16
    ∷ some 17
    ∷ some 18
    ∷ some 19
    ∷ some 20
    ∷ some 21
    ∷ some 22
    ∷ some 23
    ∷ some 24
    ∷ some 25
    ∷ none
    ∷ none
    ∷ none
    ∷ none
    ∷ none
    ∷ none
    ∷ some 26
    ∷ some 27
    ∷ some 28
    ∷ some 29
    ∷ some 30
    ∷ some 31
    ∷ some 32
    ∷ some 33
    ∷ some 34
    ∷ some 35
    ∷ some 36
    ∷ some 37
    ∷ some 38
    ∷ some 39
    ∷ some 40
    ∷ some 41
    ∷ some 42
    ∷ some 43
    ∷ some 44
    ∷ some 45
    ∷ some 46
    ∷ some 47
    ∷ some 48
    ∷ some 49
    ∷ some 50
    ∷ some 51
    ∷ none
    ∷ none
    ∷ none
    ∷ none
    ∷ none
    ∷ []

-- `toBinaryTable[data.charCodeAt(i) & 0x7f]`
unfoldable pub from_base64 : ℕ → Option ℕ
unfolding to_binary_table
from_base64 c = read to_binary_table (c % 128)

-- The variables of the loop of `decode`.
pub record Decoding : Type 0 where
  pub result : List (Option ℕ)
  pub idx : ℕ
  pub leftbits : ℕ
  pub leftdata : ℕ

-- The second half of the loop's body: take six more bits in, and put a byte out when there is one.
unfoldable pub collect : ℕ → Bool → Decoding → Decoding
collect c padding d =
    let bits = d.leftbits + 6 in
    let gathered = bit_or (d.leftdata * 64) c in
    if leb 8 bits
    then record {
      result =
          if padding
          then d.result
          else write d.result d.idx (some (gathered / 2 ^ (bits - 8) % 256));
      idx = if padding then d.idx else d.idx + 1;
      leftbits = bits - 8;
      leftdata = gathered % 2 ^ (bits - 8);
    }
    else record d { leftbits = bits; leftdata = gathered }

-- The loop's body; an illegal character is reported on the console and skipped.
unfoldable pub decode_char : Decoding → ℕ → Decoding
decode_char d ch = elim (from_base64 ch) [ none ↦ d | some c ↦ collect c (ch == base64_pad) d ]

unfoldable pub decode_loop : Decoding → List ℕ → Decoding
decode_loop d [] = d
decode_loop d (ch ∷ rest) = decode_loop (decode_char d ch) rest

-- `data.indexOf(ch)`
unfoldable pub index_of : ℕ → List ℕ → Option ℕ
index_of ch [] = none
index_of ch (x ∷ xs) =
    if x == ch then some 0 else elim (index_of ch xs) [ none ↦ none | some i ↦ some (suc i) ]

-- `data_length`: up to the first pad, or to the end if there is none behind the offset.
unfoldable pub data_length : List ℕ → ℕ → ℕ
data_length xs offset = elim (index_of base64_pad xs) [
  | none ↦ length xs - offset
  | some i ↦ if ltb i offset then length xs - offset else i - offset
]

-- `(data_length >> 2) * 3 + Math.floor((data_length % 4) / 1.5)`
unfoldable pub result_length : ℕ → ℕ
result_length n = n / 4 * 3 + n % 4 * 2 / 3

unfoldable pub start : ℕ → Decoding
start n = record { result = replicate n none; idx = 0; leftbits = 0; leftdata = 0 }

-- In strict code `err = …` to a name that nothing declares throws itself, before the Base64-Error is made.
unfoldable pub finish : Decoding → Result (List (Option ℕ))
finish d = if d.leftbits == 0 then ok d.result else err reference_error

-- An offset past the end makes the length negative, which `new Array` refuses, unless a pad stands
-- behind the offset, which cannot be.
unfoldable pub decode : List ℕ → ℕ → Result (List (Option ℕ))
decode xs offset =
    if ltb (length xs) offset
    then err range_error
    else finish (decode_loop (start (result_length (data_length xs offset))) (drop offset xs))
