-- ===== src/Websock/Refine.antt =====
-- The receive queue of websock.js behaves as a plain queue of bytes: its index, and the compaction
-- that moves the bytes to the front of the array, cannot be seen.
use routercenter_old.Prelude.{
  ℕ, ◌-◌, ◌≤◌, ◌≡◌, refl, ap, ◌∙◌, Option, none, some, List, [], ◌∷◌, ◌++◌, map, arith, drop, take,
  drop-add, drop-append, length, length-drop, length-append, leb, if◌then◌else◌, ◌⊎◌, inl, inr,
  Bool-cases, Option-cases,
}
use routercenter_old.Prelude.Int.{pos, ltb_ℤ}
use routercenter_old.Prelude.Result.{Exception, ok}
use routercenter_old.Prelude.Array.{length-write}
use routercenter_old.Websock.Receive.{compact-pending, compact_within, compact-mode}
use routercenter_old.Websock.{
  Websock, binary, rq_peek8, rq_shift8, rq_shift_bytes, rq_skip_bytes, rq_unshift8, recv_message,
  handle_message, decode_message, compact, rq_len,
}
use routercenter_old.Websock.Queue.{
  pending, read-pending_head, shift_bytes-pending, unshift8-pending,
}

-- A client's call, or a binary frame that arrives while no handler reads.
pub data Op : Type 0 where
  peek shift : Op
  shift_bytes skip unshift : ℕ → Op
  message : List ℕ → Op

pub data Reply : Type 0 where
  byte : Option ℕ → Reply
  bytes : List (Option ℕ) → Reply
  done : Reply

-- The plain queue; a call that asks for more than is there is not allowed (`none`).
unfoldable pub queue_step : List (Option ℕ) → Op → Option (Reply × List (Option ℕ))
queue_step [] peek = none
queue_step (x ∷ q) peek = some (byte x, x ∷ q)
queue_step [] shift = none
queue_step (x ∷ q) shift = some (byte x, q)
queue_step q (shift_bytes n) = if leb n (length q) then some (bytes (take n q), drop n q) else none
queue_step q (skip n) = if leb n (length q) then some (done, drop n q) else none
queue_step q (unshift v) = some (done, some v ∷ q)
queue_step q (message payload) = some (done, q ++ map some payload)

unfoldable pub queue_run : List (Option ℕ) → List Op → Option (List Reply × List (Option ℕ))
queue_run q [] = some ([], q)
queue_run q (o ∷ ops) = elim (queue_step q o) [
  | none ↦ none
  | some (r, q') ↦ elim (queue_run q' ops) [ none ↦ none | some (rs, q'') ↦ some (r ∷ rs, q'') ]
]

-- A handler that leaves the bytes where they are.
abbrev pub leave : Websock → Websock × Option Exception
leave ws = (ws, none)

abbrev pub ignore : Exception → Websock → Websock
ignore e ws = ws

unfoldable pub step : Websock → Op → Reply × Websock
step ws peek = (byte (rq_peek8 ws), ws)
step ws shift = (byte (rq_shift8 ws).0, (rq_shift8 ws).1)
step ws (shift_bytes n) = (bytes (rq_shift_bytes n ws).0, (rq_shift_bytes n ws).1)
step ws (skip n) = (done, rq_skip_bytes n ws)
step ws (unshift v) = (done, rq_unshift8 v ws)
step ws (message payload) = (done, recv_message leave ignore payload ws)

unfoldable pub run : Websock → List Op → List Reply × Websock
run ws [] = ([], ws)
run ws (o ∷ ops) = let (r, ws') = step ws o in let (rs, ws'') = run ws' ops in (r ∷ rs, ws'')

-- The index stands within the queue, and frames are binary.
pub record IsReady (ws : Websock) : Type 0 where
  pub within : ws.rqi ≤ length ws.rq
  pub in_binary : ws.mode ≡ binary

-- What one call must satisfy for its answer and its queue.
abbrev Agrees : Reply × Websock → Reply → List (Option ℕ) → Type 0
Agrees out r q = (out.0 ≡ r) × (pending out.1 ≡ q) × IsReady out.1

List-cases : {A : Type 0} (xs : List A) → (xs ≡ []) ⊎ ((x : A) × (rest : List A) × (xs ≡ x ∷ rest))
List-cases [] = inl refl
List-cases (x ∷ rest) = inr (x, rest, refl)

-- The queue with a frame's bytes at its end.
abbrev arrived : Websock → List ℕ → Websock
arrived ws payload = record ws { rq = ws.rq ++ map some payload }

module _ (ws : Websock) (v : IsReady ws) where
  unshift-IsReady : (b : ℕ) → IsReady (rq_unshift8 b ws)
  unfolding rq_unshift8
  unshift-IsReady b = ground (arith, length-write ws.rq (ws.rqi - 1) (some b), v.within)

  decoded : (payload : List ℕ) → decode_message payload ws ≡ ok (arrived ws payload)
  unfolding decode_message
  decoded payload = ground (arith, v.in_binary)

  quiet-cases :
      (payload : List ℕ)
      → (recv_message leave ignore payload ws ≡ compact (arrived ws payload))
        ⊎ (recv_message leave ignore payload ws ≡ arrived ws payload)
  unfolding recv_message handle_message
  quiet-cases payload = elim (Bool-cases (ltb_ℤ (pos 0) (rq_len (arrived ws payload)))) [
    | inl t ↦ inl (rw (decoded payload, recv_message) (rw t))
    | inr t ↦ inr (rw (decoded payload, recv_message) (rw t))
  ]

  -- A frame while nothing reads adds its bytes at the end.
  recv_quiet :
      (payload : List ℕ)
      → pending (recv_message leave ignore payload ws) ≡ pending ws ++ map some payload
  recv_quiet payload =
      let joined = drop-append ws.rqi ws.rq (map some payload) v.within in
      elim (quiet-cases payload) [
        | inl c ↦ rw c (compact-pending (arrived ws payload) ∙ joined)
        | inr c ↦ rw c joined
      ]

  recv_quiet-IsReady : (payload : List ℕ) → IsReady (recv_message leave ignore payload ws)
  recv_quiet-IsReady payload =
      let ws' = arrived ws payload in
      let fits : ws'.rqi ≤ length ws'.rq =
        omega (arith, length-append ws.rq (map some payload), v.within) in
      elim (quiet-cases payload) [
        | inl c ↦ rw c (record {
          within = compact_within ws' fits;
          in_binary = compact-mode ws' ∙ v.in_binary;
        })
        | inr c ↦ rw c (record { within = fits; in_binary = v.in_binary })
      ]

module _ (ws : Websock) (v : IsReady ws) {r : Reply} {q : List (Option ℕ)} where
  peek-Agrees : queue_step (pending ws) peek ≡ some (r, q) → Agrees (step ws peek) r q
  unfolding queue_step step rq_peek8
  peek-Agrees e = elim (List-cases (pending ws)) [
    | inl n ↦ absurd (ground arith)
    | inr (x, rest, c) ↦ (ground (arith, read-pending_head ws), ground arith, v)
  ]

  shift-Agrees : queue_step (pending ws) shift ≡ some (r, q) → Agrees (step ws shift) r q
  unfolding queue_step step rq_shift8
  shift-Agrees e = elim (List-cases (pending ws)) [
    | inl n ↦ absurd (ground arith)
    | inr (x, rest, c) ↦
        let tail : pending (rq_shift8 ws).1 ≡ rest = drop-add ws.rqi 1 ws.rq ∙ ap (drop 1) c in
        let some_left = ap length c in
        (
          ground (arith, read-pending_head ws),
          ground (arith, tail),
          record {
            within = omega (arith, some_left, length-drop ws.rqi ws.rq);
            in_binary = v.in_binary;
          },
        )
  ]

  shift_bytes-Agrees :
      (n : ℕ)
      → queue_step (pending ws) (shift_bytes n) ≡ some (r, q)
      → Agrees (step ws (shift_bytes n)) r q
  unfolding queue_step step rq_shift_bytes
  shift_bytes-Agrees n e = elim (Bool-cases (leb n (length (pending ws)))) [
    | inl c ↦
        let (taken, left) = shift_bytes-pending n ws in
        (
          ground (arith, taken),
          ground (arith, left),
          record { within = ground (arith, length-drop ws.rqi ws.rq); in_binary = v.in_binary },
        )
    | inr c ↦ absurd (ground arith)
  ]

  skip-Agrees :
      (n : ℕ) → queue_step (pending ws) (skip n) ≡ some (r, q) → Agrees (step ws (skip n)) r q
  unfolding queue_step step rq_skip_bytes
  skip-Agrees n e = elim (Bool-cases (leb n (length (pending ws)))) [
    | inl c ↦ (
      ground arith,
      ground (arith, drop-add ws.rqi n ws.rq),
      record { within = ground (arith, length-drop ws.rqi ws.rq); in_binary = v.in_binary },
    )
    | inr c ↦ absurd (ground arith)
  ]

  unshift-Agrees :
      (b : ℕ) → queue_step (pending ws) (unshift b) ≡ some (r, q) → Agrees (step ws (unshift b)) r q
  unfolding queue_step step
  unshift-Agrees b e = (ground arith, ground (arith, unshift8-pending b ws), unshift-IsReady ws v b)

  message-Agrees :
      (payload : List ℕ)
      → queue_step (pending ws) (message payload) ≡ some (r, q)
      → Agrees (step ws (message payload)) r q
  unfolding queue_step step
  message-Agrees payload e =
      (ground arith, ground (arith, recv_quiet ws v payload), recv_quiet-IsReady ws v payload)

-- Any call that the plain queue allows has the same answer on a queue that is ready, and leaves it
-- ready and in step with the plain queue.
step-Agrees :
    (ws : Websock) (o : Op) {r : Reply} {q : List (Option ℕ)}
    → IsReady ws
    → queue_step (pending ws) o ≡ some (r, q)
    → Agrees (step ws o) r q
step-Agrees ws peek v e = peek-Agrees ws v e
step-Agrees ws shift v e = shift-Agrees ws v e
step-Agrees ws (shift_bytes n) v e = shift_bytes-Agrees ws v n e
step-Agrees ws (skip n) v e = skip-Agrees ws v n e
step-Agrees ws (unshift b) v e = unshift-Agrees ws v b e
step-Agrees ws (message payload) v e = message-Agrees ws v payload e

-- For a queue that is ready, any sequence of calls and arriving frames that never asks for more than
-- has arrived gets the answers of a plain queue of the waiting bytes, and leaves the bytes that the
-- plain queue leaves.
pub run_refines :
    (ws : Websock) (ops : List Op) {rs : List Reply} {q : List (Option ℕ)}
    → IsReady ws
    → queue_run (pending ws) ops ≡ some (rs, q)
    → ((run ws ops).0 ≡ rs) × (pending (run ws ops).1 ≡ q)
unfolding queue_run run
run_refines ws [] v e = (ground arith, ground arith)
run_refines ws (o ∷ ops) {rs} {q} v e = elim (Option-cases (queue_step (pending ws) o)) [
  | inl n ↦ absurd (ground arith)
  | inr ((r, q'), c) ↦
      let (answer, rest, ready) = step-Agrees ws o v c in
      elim (Option-cases (queue_run q' ops)) [
        | inl n ↦ absurd (ground arith)
        | inr ((rs', q''), k) ↦
            let (answers, left) =
              run_refines (step ws o).1 ops {rs = rs'} {q = q''} ready (rw rest k) in
            (ground arith, ground arith)
      ]
]
