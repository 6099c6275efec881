-- ===== src/Base64/RoundTrip.antt =====
-- `decode` gives back the bytes that `encode` was given.
use routercenter_old.Prelude.{
  ℕ, ◌+◌, ◌*◌, ◌/◌, ◌%◌, ◌≤◌, ◌<◌, ◌≡◌, ◌-◌, ◌^◌, leb, ltb, true, false, Option, some, none, List,
  [], ◌∷◌, ◌++◌, map, append_assoc, append-nil, arith, length, length-append, replicate,
}
use routercenter_old.Prelude.All.{All, IsByte}
use routercenter_old.Prelude.Array.{write-append}
use routercenter_old.Prelude.Result.{ok}
use routercenter_old.Base64.{
  encode, decode, decode_loop, decode_char, collect, Decoding, base64_pad, start, finish,
  from_base64,
}
use routercenter_old.Base64.Chars.{
  char, char-ne-pad, from_base64-char, bit_or-eq-add, encode-three, encode_two, encode_one,
}
use routercenter_old.Base64.Length.{result_length-encode}

-- A state of the loop: the slots before the index, those from it on, and the bits in hand.
abbrev state : List (Option ℕ) → List (Option ℕ) → ℕ → ℕ → Decoding
state out rest bits left = record {
  result = out ++ rest;
  idx = length out;
  leftbits = bits;
  leftdata = left;
}

module _ (out rest : List (Option ℕ)) where
  -- The first char of a group only fills the bits.
  take_first : (v : ℕ) → v < 64 → decode_char (state out rest 0 0) (char v) ≡ state out rest 6 v
  unfolding decode_char collect
  take_first v h = rw (from_base64-char v h, decode_char) (ground (arith, bit_or-eq-add 0 v))

  -- Each later char puts a byte out.
  take_next :
      (x : Option ℕ) (bits left v : ℕ)
      → 2 ≤ bits
      → left < 64
      → v < 64
      → decode_char (state out (x ∷ rest) bits left) (char v)
        ≡ state
            (out ++ some ((left * 64 + v) / 2 ^ (bits + 6 - 8) % 256) ∷ [])
            rest
            (bits + 6 - 8)
            ((left * 64 + v) % 2 ^ (bits + 6 - 8))
  unfolding decode_char collect
  take_next x bits left v hb hl hv =
      let enough : leb 8 (bits + 6) ≡ true = ground arith in
      rw (from_base64-char v hv, char-ne-pad v hv, decode_char)
        (rw (
          enough,
          bit_or-eq-add left v hl hv,
          write-append out x _ rest,
          append_assoc,
          length-append,
        ))

  -- A pad moves the bits on and puts nothing out.
  take_pad :
      (bits left : ℕ)
      → 2 ≤ bits
      → left < 64
      → decode_char (state out rest bits left) base64_pad
        ≡ state out rest (bits + 6 - 8) ((left * 64 + 0) % 2 ^ (bits + 6 - 8))
  unfolding decode_char collect from_base64
  take_pad bits left hb hl =
      let enough : leb 8 (bits + 6) ≡ true = ground arith in
      rw (enough, bit_or-eq-add left 0 hl (omega arith))

-- One, two or three bytes at the front of the encoding fill the next slots.
module _ (out rest : List (Option ℕ)) (a : ℕ) (ha : a < 256) where
  one :
      decode_loop
        (state out (none ∷ rest) 0 0)
        (char (a / 4) ∷ char (a % 4 * 16) ∷ base64_pad ∷ base64_pad ∷ [])
      ≡ state (out ++ some a ∷ []) rest 0 0
  unfolding decode_loop
  one =
      let byte : (a / 4 * 64 + a % 4 * 16) / 16 % 256 ≡ a = omega arith in
      let left : (a / 4 * 64 + a % 4 * 16) % 16 ≡ 0 = omega arith in
      rw (
        take_first out _ (a / 4) (omega arith),
        take_next out _ none 6 (a / 4) (a % 4 * 16) (omega arith) (omega arith) (omega arith),
        byte,
        left,
        take_pad (out ++ some a ∷ []) rest 4 0 (omega arith) (omega arith),
        take_pad (out ++ some a ∷ []) rest 2 0 (omega arith) (omega arith),
      )

module _ (out rest : List (Option ℕ)) (a b : ℕ) (ha : a < 256) (hb : b < 256) where
  -- The first two chars give the first byte, and leave four bits of the second.
  first_byte :
      (r : List (Option ℕ))
      → decode_char
          (decode_char (state out (none ∷ r) 0 0) (char (a / 4)))
          (char (a % 4 * 16 + b / 16))
        ≡ state (out ++ some a ∷ []) r 4 (b / 16)
  first_byte r =
      let byte : (a / 4 * 64 + (a % 4 * 16 + b / 16)) / 16 % 256 ≡ a = omega arith in
      let left : (a / 4 * 64 + (a % 4 * 16 + b / 16)) % 16 ≡ b / 16 = omega arith in
      rw (
        take_first out _ (a / 4) (omega arith),
        take_next out r none 6 (a / 4) (a % 4 * 16 + b / 16) (omega arith) (omega arith)
            (omega arith),
        byte,
        left,
      )

  two :
      decode_loop
        (state out (none ∷ none ∷ rest) 0 0)
        (char (a / 4) ∷ char (a % 4 * 16 + b / 16) ∷ char (b % 16 * 4) ∷ base64_pad ∷ [])
      ≡ state ((out ++ some a ∷ []) ++ some b ∷ []) rest 0 0
  unfolding decode_loop
  two =
      let byte : (b / 16 * 64 + b % 16 * 4) / 4 % 256 ≡ b = omega arith in
      let left : (b / 16 * 64 + b % 16 * 4) % 4 ≡ 0 = omega arith in
      rw (
        first_byte (none ∷ rest),
        take_next (out ++ some a ∷ []) rest none 4 (b / 16) (b % 16 * 4) (omega arith) (omega arith)
            (omega arith),
        byte,
        left,
        take_pad ((out ++ some a ∷ []) ++ some b ∷ []) rest 2 0 (omega arith) (omega arith),
      )

  three :
      (c : ℕ)
      → c < 256
      → (xs : List ℕ)
      → decode_loop (state out (none ∷ none ∷ none ∷ rest) 0 0) (
          char (a / 4)
          ∷ char (a % 4 * 16 + b / 16)
          ∷ char (b % 16 * 4 + c / 64)
          ∷ char (c % 64)
          ∷ xs)
        ≡ decode_loop (state (((out ++ some a ∷ []) ++ some b ∷ []) ++ some c ∷ []) rest 0 0) xs
  unfolding decode_loop
  three c hc xs =
      let byte₂ : (b / 16 * 64 + (b % 16 * 4 + c / 64)) / 4 % 256 ≡ b = omega arith in
      let left₂ : (b / 16 * 64 + (b % 16 * 4 + c / 64)) % 4 ≡ c / 64 = omega arith in
      let byte₃ : (c / 64 * 64 + c % 64) / 2 ^ 0 % 256 ≡ c = omega arith in
      let left₃ : (c / 64 * 64 + c % 64) % 2 ^ 0 ≡ 0 = omega arith in
      rw (
        first_byte (none ∷ none ∷ rest),
        take_next (out ++ some a ∷ []) (none ∷ rest) none 4 (b / 16) (b % 16 * 4 + c / 64)
            (omega arith) (omega arith) (omega arith),
        byte₂,
        left₂,
        take_next ((out ++ some a ∷ []) ++ some b ∷ []) rest none 2 (c / 64) (c % 64) (omega arith)
            (omega arith) (omega arith),
        byte₃,
        left₃,
      )

-- From the front of a group on, the encoding of bytes fills as many slots with them.
decode_loop-encode :
    (xs : List ℕ) (out : List (Option ℕ))
    → All IsByte xs
    → decode_loop (state out (replicate (length xs) none) 0 0) (encode xs)
      ≡ state (out ++ map some xs) [] 0 0
decode_loop-encode [] out h = unfold decode_loop encode in simp append-nil
decode_loop-encode (a ∷ []) out (ha, _) = rw (encode_one a ha) (one out [] a ha)
decode_loop-encode (a ∷ b ∷ []) out (ha, (hb, _)) =
    rw (encode_two a b ha hb, two out [] a b ha hb) (simp append_assoc)
decode_loop-encode (a ∷ b ∷ c ∷ xs) out (ha, (hb, (hc, h))) =
    rw
      (
        encode-three a b c ha hb hc xs,
        three out (replicate (length xs) none) a b ha hb c hc (encode xs),
        decode_loop-encode xs (((out ++ some a ∷ []) ++ some b ∷ []) ++ some c ∷ []) h,
      )
      (simp append_assoc)

-- Decoding the encoding of a list of bytes gives exactly that list back: no slot of the array that
-- `decode` allocates beforehand stays undefined, and none is added.
pub decode-encode : (xs : List ℕ) → All IsByte xs → decode (encode xs) 0 ≡ ok (map some xs)
unfolding decode start finish
decode-encode xs h =
    let long : ltb (length (encode xs)) 0 ≡ false = ground arith in
    rw (long, result_length-encode xs h, decode_loop-encode xs [] h) (rw append-nil)
