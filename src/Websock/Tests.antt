-- ===== src/Websock/Tests.antt =====
-- Runs of a Websock, and its theorems at concrete inputs.
use routercenter_old.Prelude.{ℕ, ◌≡◌, ◌≤◌, ◌⊎◌, refl, some, List, [], ◌∷◌, ◌++◌, map, length, arith}
use routercenter_old.Prelude.Int.{negsuc, ◌+ℤ◌}
use routercenter_old.Prelude.Result.{ok}
use routercenter_old.Websock.{
  Websock, Mode, binary, base64, rq_shift32, to_int32, recv_message, decode_message, shift_left,
  plus_value,
}
use routercenter_old.Websock.Queue.{pending}
use routercenter_old.Websock.Receive.{recv_message-pending}
use routercenter_old.Websock.Refine.{
  Op, peek, shift, shift_bytes, unshift, message, byte, bytes, done, run, queue_run, queue_step,
  run_refines, leave, ignore,
}
use routercenter_old.Websock.Stream.{send_all, handed, receive_all, send_all_lem}

-- A connection with a sub-protocol chosen, where one byte of six has been read.
abbrev opened : Mode → Websock
opened m = record {
  rq = some 9 ∷ some 255 ∷ some 255 ∷ some 255 ∷ some 254 ∷ some 7 ∷ [];
  rqi = 1;
  rq_max = 10000;
  sq = [];
  mode = m;
  max_buffered_amount = 200;
  sent = [];
}

shift32_minus_two : (rq_shift32 (opened binary)).0 ≡ some (negsuc 1)
unfolding rq_shift32 plus_value shift_left to_int32 ◌+ℤ◌
shift32_minus_two = refl

two_more :
    decode_message (1 ∷ 2 ∷ []) (opened binary)
    ≡ ok (record (opened binary) { rq = (opened binary).rq ++ some 1 ∷ some 2 ∷ [] })
unfolding decode_message
two_more = refl

recv_message-pending_example :
    (pending (recv_message leave ignore (1 ∷ 2 ∷ []) (opened binary))
      ≡ pending (opened binary) ++ some 1 ∷ some 2 ∷ [])
    × ((length (recv_message leave ignore (1 ∷ 2 ∷ []) (opened binary)).rq ≤ 10000)
        ⊎ ((recv_message leave ignore (1 ∷ 2 ∷ []) (opened binary)).rqi ≡ 0))
recv_message-pending_example =
    recv_message-pending leave ignore (1 ∷ 2 ∷ []) (opened binary)
      (record (opened binary) { rq = (opened binary).rq ++ some 1 ∷ some 2 ∷ [] })
      (record (opened binary) { rq = (opened binary).rq ++ some 1 ∷ some 2 ∷ [] }) two_more
      (omega arith) refl

abbrev session : List Op
session = peek ∷ shift ∷ shift_bytes 2 ∷ message (3 ∷ []) ∷ unshift 8 ∷ shift_bytes 3 ∷ []

run_refines_example :
    ((run (opened binary) session).0
      ≡ byte (some 255)
        ∷ byte (some 255)
        ∷ bytes (some 255 ∷ some 255 ∷ [])
        ∷ done
        ∷ done
        ∷ bytes (some 8 ∷ some 254 ∷ some 7 ∷ [])
        ∷ [])
    × (pending (run (opened binary) session).1 ≡ some 3 ∷ [])
unfolding queue_run queue_step
run_refines_example =
    run_refines (opened binary) session (record { within = omega arith; in_binary = refl }) refl

-- The second call finds the socket full; its bytes go with the third.
abbrev calls : List (List ℕ × ℕ)
calls = (1 ∷ 2 ∷ [], 0) ∷ (3 ∷ [], 200) ∷ (4 ∷ 255 ∷ [], 10) ∷ []

send_all_lem_example :
    (far : Websock) × (receive_all (send_all calls (opened base64)).sent (opened base64) ≡ ok far)
    × (far.rq ++ map some (send_all calls (opened base64)).sq
        ≡ (opened base64).rq ++ map some (1 ∷ 2 ∷ 3 ∷ 4 ∷ 255 ∷ []))
unfolding handed
send_all_lem_example =
    send_all_lem calls (opened base64) (opened base64) refl refl refl (omega arith)
