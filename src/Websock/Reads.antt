-- ===== src/Websock/Reads.antt =====
-- The numbers that websock.js reads off the receive queue.
use routercenter_old.Prelude.{
  ℕ, ◌+◌, ◌*◌, ◌^◌, ◌≡◌, ap, ◌∙◌, Option, some, List, ◌∷◌, arith, drop, drop-add,
}
use routercenter_old.Prelude.All.{IsByte}
use routercenter_old.Prelude.Int.{pos, ◌+ℤ◌}
use routercenter_old.Websock.{Websock, rq_shift16, rq_shift32, to_int32, shift_left, plus_value}
use routercenter_old.Websock.Queue.{pending, read-pending, read-pending_head}

word-sum :
    (a b c d : ℕ)
    → IsByte a
    → IsByte b
    → IsByte c
    → IsByte d
    → shift_left (some a) 24 +ℤ shift_left (some b) 16 +ℤ shift_left (some c) 8 +ℤ pos d
      ≡ to_int32 (a * 2 ^ 24 + b * 2 ^ 16 + c * 2 ^ 8 + d)
unfolding shift_left to_int32 ◌+ℤ◌
word-sum a b c d ha hb hc hd = ground arith

module _ (ws : Websock) (rest : List (Option ℕ)) where
  -- `rQshift32` reads four bytes that wait, the most significant first, as a signed 32-bit number,
  -- and takes them off.
  pub shift32-pending :
      (a b c d : ℕ)
      → IsByte a
      → IsByte b
      → IsByte c
      → IsByte d
      → pending ws ≡ some a ∷ some b ∷ some c ∷ some d ∷ rest
      → ((rq_shift32 ws).0 ≡ some (to_int32 (a * 2 ^ 24 + b * 2 ^ 16 + c * 2 ^ 8 + d)))
        × (pending (rq_shift32 ws).1 ≡ rest)
  unfolding rq_shift32 plus_value
  shift32-pending a b c d ha hb hc hd e = (
    rw (read-pending_head ws, read-pending ws 1, read-pending ws 2, read-pending ws 3, e)
        (ap some (word-sum a b c d ha hb hc hd)),
    drop-add ws.rqi 4 ws.rq ∙ ap (drop 4) e,
  )

  -- `rQshift16` reads two bytes that wait, the most significant first, and takes them off.
  pub shift16-pending :
      (a b : ℕ)
      → IsByte a
      → IsByte b
      → pending ws ≡ some a ∷ some b ∷ rest
      → ((rq_shift16 ws).0 ≡ some (pos (a * 2 ^ 8 + b))) × (pending (rq_shift16 ws).1 ≡ rest)
  unfolding rq_shift16 plus_value
  shift16-pending a b ha hb e = (
    rw (read-pending_head ws, read-pending ws 1, e)
        (unfold shift_left to_int32 ◌+ℤ◌ in ground arith),
    drop-add ws.rqi 2 ws.rq ∙ ap (drop 2) e,
  )
