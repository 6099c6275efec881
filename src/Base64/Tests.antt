-- ===== src/Base64/Tests.antt =====
-- Runs of the codec, and its theorems at concrete inputs.
use routercenter_old.Prelude.{
  ◌≡◌, refl, ◌↔◌, ◌≢◌, ◌%◌, some, none, ℕ, List, Option, [], ◌∷◌, ◌++◌, map, arith,
}
use routercenter_old.Prelude.Text.{codes}
use routercenter_old.Prelude.Result.{Result, ok, err, reference_error}
use routercenter_old.Prelude.Array.{write}
use routercenter_old.Base64.{
  encode, decode, to_base64, start, finish, decode_loop, decode_char, collect, from_base64,
  data_length, index_of, result_length,
}
use routercenter_old.Base64.RoundTrip.{decode-encode}
use routercenter_old.Base64.Legal.{legal_chars, decode_fails_iff}

encode_hello : encode (codes "hello") ≡ codes "aGVsbG8="
unfolding encode to_base64
encode_hello = refl

-- What a run of the decoder computes with.
runs : List ℕ → ℕ → Result (List (Option ℕ))
unfolding decode start finish decode_loop decode_char collect from_base64 data_length index_of
    result_length write
runs = decode

decode_hello : decode (codes "aGVsbG8=") 0 ≡ ok (map some (codes "hello"))
unfolding runs
decode_hello = refl

-- Two line ends are skipped, but they have been counted for the array.
decode_line_ends : decode (codes "TWFu  ") 0 ≡ ok (map some (codes "Man") ++ none ∷ [])
unfolding runs
decode_line_ends = refl

decode_short : decode (codes "TWF") 0 ≡ err reference_error
unfolding runs
decode_short = refl

decode-encode_example :
    decode (encode (0 ∷ 255 ∷ 130 ∷ 7 ∷ [])) 0 ≡ ok (map some (0 ∷ 255 ∷ 130 ∷ 7 ∷ []))
decode-encode_example = decode-encode (0 ∷ 255 ∷ 130 ∷ 7 ∷ []) (omega arith)

decode_fails_iff_example :
    (decode (codes "x TWF") 2 ≡ err reference_error) ↔ (legal_chars (codes "TWF") % 4 ≢ 0)
decode_fails_iff_example = decode_fails_iff (codes "x TWF") 2 (omega arith)
