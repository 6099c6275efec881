-- ===== src/Websock/Queue.antt =====
-- The bytes that wait in the receive queue, as a list, and how the operations of websock.js that
-- move the index act on it.
use routercenter_old.Prelude.{
  ℕ, zero, suc, ◌+◌, ◌-◌, ◌≤◌, ◌<◌, ◌≡◌, refl, ap, ◌∙◌, sym, true, false, Option, some, List, [],
  ◌∷◌, arith, ◌==◌, length, length-drop, drop, take, Bool-cases, inl, inr, ◌↔◌, drop-add,
  get_elem?-add,
}
use native.Mathlib.Nat.{add-zero}
use routercenter_old.Prelude.Array.{join, read, write}
use routercenter_old.Prelude.Result.{ok}
use routercenter_old.Websock.{Websock, rq_unshift8, rq_shift_bytes, rq_wait, slice}

abbrev pub pending : Websock → List (Option ℕ)
pending ws = drop ws.rqi ws.rq

pub read-pending : (ws : Websock) (k : ℕ) → read ws.rq (ws.rqi + k) ≡ read (pending ws) k
read-pending ws k = ap join (get_elem?-add ws.rqi k ws.rq)

pub read-pending_head : (ws : Websock) → read ws.rq ws.rqi ≡ read (pending ws) 0
read-pending_head ws = ap (read ws.rq) (sym (add-zero ws.rqi)) ∙ read-pending ws 0

-- `rQshiftBytes` takes bytes off the front: it returns the first of those that wait, and leaves
-- the rest.
pub shift_bytes-pending :
    (len : ℕ) (ws : Websock)
    → ((rq_shift_bytes len ws).0 ≡ take len (pending ws))
      × (pending (rq_shift_bytes len ws).1 ≡ drop len (pending ws))
unfolding rq_shift_bytes slice
shift_bytes-pending len ws =
    let back : ws.rqi + len - len ≡ ws.rqi = omega arith in
    let whole : ws.rqi + len - ws.rqi ≡ len = omega arith in
    (rw (back, whole), drop-add ws.rqi len ws.rq)

drop-write :
    (i v : ℕ) (xs : List (Option ℕ))
    → i < length xs
    → drop i (write xs i (some v)) ≡ some v ∷ drop (suc i) xs
unfolding write
drop-write zero v [] h = absurd (omega arith)
drop-write zero v (x ∷ xs) h = refl
drop-write (suc i) v [] h = absurd (omega arith)
drop-write (suc i) v (x ∷ xs) h = drop-write i v xs (omega arith)

-- `rQunshift8` puts a byte back at the front, whether or not one has been taken off, as long as the
-- index stands within the queue.
pub unshift8-pending :
    (v : ℕ) (ws : Websock)
    → ws.rqi ≤ length ws.rq
    → pending (rq_unshift8 v ws) ≡ some v ∷ pending ws
unfolding rq_unshift8
unshift8-pending v ws h = elim (Bool-cases (ws.rqi == 0)) [
  | inl e ↦ let zero_index : ws.rqi ≡ 0 = ground arith in rw e (rw zero_index)
  | inr e ↦
      let next : suc (ws.rqi - 1) ≡ ws.rqi = ground arith in
      rw e (drop-write (ws.rqi - 1) v ws.rq (omega arith) ∙ ap (λ n. some v ∷ drop n ws.rq) next)
]

-- With the index within the queue, `rQwait` says that there is enough exactly when the number of
-- bytes asked for waits, and it then leaves the queue alone.
wait_enough_iff :
    (num goback : ℕ) (ws : Websock)
    → ws.rqi ≤ length ws.rq
    → (rq_wait num goback ws ≡ ok (false, ws)) ↔ (num ≤ length (pending ws))
unfolding rq_wait
wait_enough_iff num goback ws h =
    let size = length-drop ws.rqi ws.rq in (λ e. ground (arith, size), λ e. ground (arith, size))

-- When too few bytes wait and at least `goback` bytes have been taken, `rQwait` asks for more and
-- puts exactly those bytes back in front of the ones that wait; the queue's bytes stay as they are.
wait_goback :
    (num goback : ℕ) (ws : Websock)
    → length (pending ws) < num
    → goback ≤ ws.rqi
    → (ws' : Websock) × (rq_wait num goback ws ≡ ok (true, ws'))
      × (drop goback (pending ws') ≡ pending ws)
      × (ws'.rqi + goback ≡ ws.rqi)
      × (ws'.rq ≡ ws.rq)
unfolding rq_wait
wait_goback num goback ws h g =
    let size = length-drop ws.rqi ws.rq in
    (
      record ws { rqi = ws.rqi - goback },
      ground (arith, size),
      sym (drop-add (ws.rqi - goback) goback ws.rq) ∙ ap (λ n. drop n ws.rq) (omega arith),
      omega arith,
      refl,
    )
