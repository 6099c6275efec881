-- ===== src/Websock/Receive.antt =====
-- The 'message' event of websock.js: decoding, the owner's handler and the compaction.
use routercenter_old.Prelude.{
  ℕ, ◌≤◌, ◌<◌, ◌≡◌, true, Option, none, some, List, arith, length, ltb, ◌⊎◌, inl, inr, Bool-cases,
}
use routercenter_old.Prelude.Int.{pos, ltb_ℤ}
use routercenter_old.Prelude.Result.{Exception, ok, err}
use routercenter_old.Websock.{
  Websock, recv_message, handle_message, decode_message, compact, rq_len,
}
use routercenter_old.Websock.Queue.{pending}

-- Compacting the array moves the waiting bytes to its front and changes nothing else.
pub compact-pending : (ws : Websock) → pending (compact ws) ≡ pending ws
unfolding compact
compact-pending ws = elim (Bool-cases (ltb ws.rq_max (length ws.rq))) [
  | inl e ↦ rw e
  | inr e ↦ rw e
]

pub compact_within :
    (ws : Websock) → ws.rqi ≤ length ws.rq → (compact ws).rqi ≤ length (compact ws).rq
unfolding compact
compact_within ws h = ground arith

pub compact-mode : (ws : Websock) → (compact ws).mode ≡ ws.mode
unfolding compact
compact-mode ws = ground arith

pub compact_bound : (ws : Websock) → (length (compact ws).rq ≤ ws.rq_max) ⊎ ((compact ws).rqi ≡ 0)
unfolding compact
compact_bound ws = ground arith

module _ (on_message : Websock → Websock × Option Exception)
    (on_error : Exception → Websock → Websock) where
  -- A frame that cannot be decoded reaches the error handler, with the queue as it was before.
  pub recv_message-undecoded :
      (payload : List ℕ) (ws : Websock) {e : Exception}
      → decode_message payload ws ≡ err e
      → recv_message on_message on_error payload ws ≡ on_error e ws
  unfolding recv_message
  recv_message-undecoded payload ws h = rw (h, recv_message)

  -- After a frame that is decoded to something, and a handler that does not throw, the bytes that
  -- wait are those that the handler left; and either the queue holds no more than its limit, or
  -- no byte that has been read is kept in it.
  pub recv_message-pending :
      (payload : List ℕ) (ws ws' ws'' : Websock)
      → decode_message payload ws ≡ ok ws'
      → ws'.rqi < length ws'.rq
      → on_message ws' ≡ (ws'', none)
      → (pending (recv_message on_message on_error payload ws) ≡ pending ws'')
        × ((length (recv_message on_message on_error payload ws).rq ≤ ws''.rq_max)
            ⊎ ((recv_message on_message on_error payload ws).rqi ≡ 0))
  unfolding recv_message handle_message rq_len
  recv_message-pending payload ws ws' ws'' d h m =
      let some_wait : ltb_ℤ (pos 0) (rq_len ws') ≡ true = ground arith in
      rw (d, recv_message) (rw (some_wait, m) (compact-pending ws'', compact_bound ws''))

  -- A handler that throws hands its error, and the queue as it left it, to the error handler; the
  -- queue is not compacted then.
  pub recv_message-thrown :
      (payload : List ℕ) (ws ws' ws'' : Websock) {e : Exception}
      → decode_message payload ws ≡ ok ws'
      → ws'.rqi < length ws'.rq
      → on_message ws' ≡ (ws'', some e)
      → recv_message on_message on_error payload ws ≡ on_error e ws''
  unfolding recv_message handle_message rq_len
  recv_message-thrown payload ws ws' ws'' d h m =
      let some_wait : ltb_ℤ (pos 0) (rq_len ws') ≡ true = ground arith in
      rw (d, recv_message) (rw (some_wait, m))
