-- ===== src/Base64/Length.antt =====
-- The size of the array that `decode` allocates.
use routercenter_old.Prelude.{
  ℕ, suc, ◌+◌, ◌*◌, ◌/◌, ◌%◌, ◌<◌, ◌≡◌, refl, false, List, [], ◌∷◌, arith, length, ◌==◌,
}
use routercenter_old.Prelude.All.{All, IsByte}
use routercenter_old.Base64.{encode, base64_pad, index_of, data_length, result_length}
use routercenter_old.Base64.Chars.{char, char-ne-pad, encode-three, encode_two, encode_one}

data_length_step :
    (x : ℕ) (xs : List ℕ)
    → (x == base64_pad) ≡ false
    → data_length (x ∷ xs) 0 ≡ suc (data_length xs 0)
unfolding data_length index_of
data_length_step x xs h = ground arith

data_length-char :
    (v : ℕ) (xs : List ℕ) → v < 64 → data_length (char v ∷ xs) 0 ≡ suc (data_length xs 0)
data_length-char v xs h = data_length_step (char v) xs (char-ne-pad v h)

data_length-pad : (xs : List ℕ) → data_length (base64_pad ∷ xs) 0 ≡ 0
unfolding data_length index_of
data_length-pad xs = refl

-- The array allocated for the encoding of bytes has their number of slots.
pub result_length-encode :
    (xs : List ℕ) → All IsByte xs → result_length (data_length (encode xs) 0) ≡ length xs
unfolding result_length
result_length-encode [] h = unfold encode data_length index_of in refl
result_length-encode (a ∷ []) (ha, _) = rw (
  encode_one a ha,
  data_length-char (a / 4) _ (omega arith),
  data_length-char (a % 4 * 16) _ (omega arith),
  data_length-pad,
)
result_length-encode (a ∷ b ∷ []) (ha, (hb, _)) = rw (
  encode_two a b ha hb,
  data_length-char (a / 4) _ (omega arith),
  data_length-char (a % 4 * 16 + b / 16) _ (omega arith),
  data_length-char (b % 16 * 4) _ (omega arith),
  data_length-pad,
)
result_length-encode (a ∷ b ∷ c ∷ rest) (ha, (hb, (hc, h))) =
    rw
      (
        encode-three a b c ha hb hc rest,
        data_length-char (a / 4) _ (omega arith),
        data_length-char (a % 4 * 16 + b / 16) _ (omega arith),
        data_length-char (b % 16 * 4 + c / 64) _ (omega arith),
        data_length-char (c % 64) _ (omega arith),
      )
      (omega (arith, result_length-encode rest h))
