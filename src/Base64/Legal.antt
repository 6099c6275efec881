-- ===== src/Base64/Legal.antt =====
-- `decode` on any text at all.
use Prim.Native.Nat.{bit_or}
use mathlib.Core.Path.{subst}
use routercenter_old.Prelude.{
  ℕ, zero, suc, ◌+◌, ◌*◌, ◌/◌, ◌%◌, ◌^◌, ◌-◌, ◌≤◌, ◌<◌, ◌≡◌, Bool, true, false, Option, none, some,
  List, [], ◌∷◌, ◌↔◌, arith, length, ◌==◌, drop, replicate, leb, if◌then◌else◌, Option-cases,
  Bool-cases, inl, inr, ◌≢◌,
}
use routercenter_old.Prelude.All.{All}
use routercenter_old.Prelude.Array.{write}
use routercenter_old.Prelude.Result.{ok, err, reference_error}
use routercenter_old.Base64.{
  decode, decode_loop, decode_char, collect, Decoding, from_base64, start, finish, result_length,
  data_length, base64_pad,
}

-- How many of the chars have a value in the table; the pad has one.
pub legal_chars : List ℕ → ℕ
legal_chars [] = 0
legal_chars (ch ∷ rest) = elim (from_base64 ch) [
  | none ↦ legal_chars rest
  | some c ↦ suc (legal_chars rest)
]

leftbits-collect :
    (c : ℕ) (p : Bool) (d : Decoding)
    → d.leftbits < 8
    → (collect c p d).leftbits ≡ (d.leftbits + 6) % 8
unfolding collect
leftbits-collect c p d h = ground arith

leftbits-decode_loop :
    (xs : List ℕ) (d : Decoding)
    → d.leftbits < 8
    → (decode_loop d xs).leftbits ≡ (d.leftbits + 6 * legal_chars xs) % 8
unfolding decode_loop legal_chars decode_char
leftbits-decode_loop [] d h = omega arith
leftbits-decode_loop (ch ∷ xs) d h = elim (Option-cases (from_base64 ch)) [
  | inl e ↦ rw (e, decode_loop, legal_chars, decode_char) (leftbits-decode_loop xs d h)
  | inr (c, e) ↦
      let d' = collect c (ch == base64_pad) d in
      let step = leftbits-collect c (ch == base64_pad) d h in
      rw (e, decode_loop, legal_chars, decode_char)
        (omega (arith, step, leftbits-decode_loop xs d' (omega (arith, step))))
]

-- For an offset within the text, decoding throws a ReferenceError, in place of the Base64-Error that it
-- means to throw, exactly when the number of chars from the offset on that the table knows is no multiple
-- of four; chars that it does not know are skipped and do not count.
pub decode_fails_iff :
    (xs : List ℕ) (offset : ℕ)
    → offset ≤ length xs
    → (decode xs offset ≡ err reference_error) ↔ (legal_chars (drop offset xs) % 4 ≢ 0)
unfolding decode start finish
decode_fails_iff xs offset h =
    let bits =
      leftbits-decode_loop (drop offset xs) (start (result_length (data_length xs offset)))
        (unfold start in omega arith) in
    (λ e. ground (arith, bits), λ ne. ground (arith, bits))

-- Every number in an array is a byte.
abbrev pub AllBytes : List (Option ℕ) → Type 0
AllBytes = All (λ o. (v : ℕ) → o ≡ some v → v < 256)

write-AllBytes :
    (r : List (Option ℕ)) (i b : ℕ) → b < 256 → AllBytes r → AllBytes (write r i (some b))
unfolding write
write-AllBytes [] zero b h a = ((λ v e. ground arith), tt)
write-AllBytes [] (suc i) b h a = ((λ v e. cc), write-AllBytes [] i b h tt)
write-AllBytes (x ∷ r) zero b h a = ((λ v e. ground arith), a.1)
write-AllBytes (x ∷ r) (suc i) b h a = (a.0, write-AllBytes r i b h a.1)

collect-AllBytes :
    (c : ℕ) (p : Bool) (d : Decoding) → AllBytes d.result → AllBytes (collect c p d).result
unfolding collect
collect-AllBytes c p d a = elim (Bool-cases (leb 8 (d.leftbits + 6))) [
  | inl e ↦ rw e (pad p)
  | inr e ↦ rw e a
]
  where
    pad :
        (q : Bool)
        → AllBytes (
            if q
            then d.result
            else write d.result d.idx
                (some (bit_or (d.leftdata * 64) c / 2 ^ (d.leftbits + 6 - 8) % 256)))
    pad true = a
    pad false = write-AllBytes d.result d.idx _ (omega arith) a

decode_loop-AllBytes :
    (xs : List ℕ) (d : Decoding) → AllBytes d.result → AllBytes (decode_loop d xs).result
unfolding decode_loop decode_char
decode_loop-AllBytes [] d a = a
decode_loop-AllBytes (ch ∷ xs) d a = elim (Option-cases (from_base64 ch)) [
  | inl e ↦ rw (e, decode_loop, decode_char) (decode_loop-AllBytes xs d a)
  | inr (c, e) ↦
      rw (e, decode_loop, decode_char)
        (decode_loop-AllBytes xs (collect c (ch == base64_pad) d) (collect-AllBytes c _ d a))
]

replicate-AllBytes : (n : ℕ) → AllBytes (replicate n none)
replicate-AllBytes zero = tt
replicate-AllBytes (suc n) = ((λ v e. cc), replicate-AllBytes n)

-- Whatever the text and the offset, every number in an array that `decode` returns is a byte.
decode-AllBytes :
    (xs : List ℕ) (offset : ℕ) {r : List (Option ℕ)} → decode xs offset ≡ ok r → AllBytes r
unfolding decode start finish
decode-AllBytes xs offset {r} e =
    let n = result_length (data_length xs offset) in
    let a = decode_loop-AllBytes (drop offset xs) (start n) (replicate-AllBytes n) in
    let final : (decode_loop (start n) (drop offset xs)).result ≡ r = ground arith in
    subst AllBytes final a
