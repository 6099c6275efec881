-- ===== src/Websock.antt =====
-- statics/include/websock.js: the receive queue and the send queue round a WebSocket. The socket is
-- the environment's: what it holds back (`bufferedAmount`) is an argument, the frames given to its
-- `send` are collected in `sent`, and the payload of a frame is a list of numbers, the bytes of the
-- buffer in binary mode and the char codes of the string in base64 mode.
pub mod Queue
pub mod Reads
pub mod Refine
pub mod Receive
pub mod Stream
mod Tests
use routercenter_old.Prelude.{
  ℕ, suc, ◌+◌, ◌-◌, ◌*◌, ◌%◌, ◌^◌, Bool, true, false, Option, none, some, List, [], ◌∷◌, ◌++◌, map,
  ltb, ◌==◌, if◌then◌else◌, length, drop, take,
}
use routercenter_old.Prelude.Int.{ℤ, pos, sub_ℕ, ltb_ℤ, ◌+ℤ◌}
use routercenter_old.Prelude.Array.{read, write}
use routercenter_old.Prelude.Result.{Result, ok, err, Exception, cannot_backup}
use routercenter_old.Base64

-- `_mode`; the code only asks whether it is 'binary'.
pub data Mode : Type 0 where
  binary base64 : Mode

pub record Websock : Type 0 where
  pub rq : List (Option ℕ)
  pub rqi : ℕ
  pub rq_max : ℕ
  pub sq : List ℕ
  pub mode : Mode
  pub max_buffered_amount : ℕ
  pub sent : List (List ℕ)

-- `new Websock()`
unfoldable pub new : Websock
new = record {
  rq = [];
  rqi = 0;
  rq_max = 10000;
  sq = [];
  mode = base64;
  max_buffered_amount = 200;
  sent = [];
}

-- What `init` does to the object's own fields; the frames of the old socket are gone with it.
unfoldable pub init : Websock → Websock
init ws = record ws { rq = []; rqi = 0; sq = []; sent = [] }

-- The socket's `onopen`, before the handler: no sub-protocol means base64.
unfoldable pub on_open : Option Mode → Websock → Websock
on_open (some m) ws = record ws { mode = m }
on_open none ws = record ws { mode = base64 }

unfoldable pub set_rqi : ℕ → Websock → Websock
set_rqi val ws = record ws { rqi = val }

-- Negative once the index has been moved past the end.
unfoldable pub rq_len : Websock → ℤ
rq_len ws = sub_ℕ (length ws.rq) ws.rqi

unfoldable pub rq_peek8 : Websock → Option ℕ
rq_peek8 ws = read ws.rq ws.rqi

unfoldable pub rq_shift8 : Websock → Option ℕ × Websock
rq_shift8 ws = (read ws.rq ws.rqi, record ws { rqi = ws.rqi + 1 })

unfoldable pub rq_skip8 : Websock → Websock
rq_skip8 ws = record ws { rqi = ws.rqi + 1 }

unfoldable pub rq_skip_bytes : ℕ → Websock → Websock
rq_skip_bytes num ws = record ws { rqi = ws.rqi + num }

unfoldable pub rq_unshift8 : ℕ → Websock → Websock
rq_unshift8 num ws =
    if ws.rqi == 0
    then record ws { rq = some num ∷ ws.rq }
    else record ws { rqi = ws.rqi - 1; rq = write ws.rq (ws.rqi - 1) (some num) }

-- A 32-bit word as the signed number that `<<` gives.
unfoldable pub to_int32 : ℕ → ℤ
to_int32 n = if ltb (n % 2 ^ 32) (2 ^ 31) then pos (n % 2 ^ 32) else sub_ℕ (n % 2 ^ 32) (2 ^ 32)

-- `v << k`; a missing value counts as zero.
unfoldable pub shift_left : Option ℕ → ℕ → ℤ
shift_left none k = pos 0
shift_left (some v) k = to_int32 (v * 2 ^ k)

-- A sum with a missing value is not a number: `none`.
unfoldable pub plus_value : ℤ → Option ℕ → Option ℤ
plus_value n none = none
plus_value n (some v) = some (n +ℤ pos v)

unfoldable pub rq_shift16 : Websock → Option ℤ × Websock
rq_shift16 ws = (
  plus_value (shift_left (read ws.rq ws.rqi) 8) (read ws.rq (ws.rqi + 1)),
  record ws { rqi = ws.rqi + 2 },
)

unfoldable pub rq_shift32 : Websock → Option ℤ × Websock
rq_shift32 ws = (
  plus_value
      (shift_left (read ws.rq ws.rqi) 24
        +ℤ shift_left (read ws.rq (ws.rqi + 1)) 16
        +ℤ shift_left (read ws.rq (ws.rqi + 2)) 8)
      (read ws.rq (ws.rqi + 3)),
  record ws { rqi = ws.rqi + 4 },
)

-- `a.slice(start, end)` for indices that are not negative
unfoldable pub slice : List (Option ℕ) → ℕ → ℕ → List (Option ℕ)
slice xs start end = take (end - start) (drop start xs)

-- A char code is taken mod 2^16, and a missing one is 0.
unfoldable pub from_char_code : Option ℕ → ℕ
from_char_code none = 0
from_char_code (some v) = v % 2 ^ 16

-- The callers give a length, or leave it to `rq_len`, which then is not negative.
unfoldable pub rq_shift_str : ℕ → Websock → List ℕ × Websock
rq_shift_str len ws =
    (map from_char_code (slice ws.rq ws.rqi (ws.rqi + len)), record ws { rqi = ws.rqi + len })

unfoldable pub rq_shift_bytes : ℕ → Websock → List (Option ℕ) × Websock
rq_shift_bytes len ws = let i = ws.rqi + len in (slice ws.rq (i - len) i, record ws { rqi = i })

-- Without a length `rQshiftBytes` takes `rQlen()` bytes, which puts the index at the end of the
-- queue, and back if it was past it.
unfoldable pub rq_shift_rest : Websock → List (Option ℕ) × Websock
rq_shift_rest ws = (drop ws.rqi ws.rq, record ws { rqi = length ws.rq })

-- An end that is missing or 0 means the end of the queue.
unfoldable pub rq_slice : ℕ → Option ℕ → Websock → List (Option ℕ)
rq_slice start none ws = drop (ws.rqi + start) ws.rq
rq_slice start (some end) ws =
    if end == 0 then drop (ws.rqi + start) ws.rq else slice ws.rq (ws.rqi + start) (ws.rqi + end)

-- `goback` is 0 where the caller leaves it out. The answer is true if more data are needed.
unfoldable pub rq_wait : ℕ → ℕ → Websock → Result (Bool × Websock)
rq_wait num goback ws =
    if ltb_ℤ (sub_ℕ (length ws.rq) ws.rqi) (pos num)
    then if ltb ws.rqi goback
      then err (cannot_backup goback)
      else ok (true, record ws { rqi = ws.rqi - goback })
    else ok (false, ws)

-- `new Uint8Array(a)` takes each number mod 256.
unfoldable pub encode_message : Websock → List ℕ
encode_message ws = elim ws.mode [
  | binary ↦ map (λ v. v % 256) ws.sq
  | base64 ↦ Base64.encode ws.sq
]

unfoldable pub flush : ℕ → Websock → Bool × Websock
flush buffered ws =
    if ltb buffered ws.max_buffered_amount
    then (
      true,
      (if ltb 0 (length ws.sq)
          then record ws { sent = ws.sent ++ encode_message ws ∷ []; sq = [] }
          else ws),
    )
    else (false, ws)

unfoldable pub send : List ℕ → ℕ → Websock → Bool × Websock
send arr buffered ws = flush buffered (record ws { sq = ws.sq ++ arr })

unfoldable pub decode_message : List ℕ → Websock → Result Websock
decode_message payload ws = elim ws.mode [
  | binary ↦ ok (record ws { rq = ws.rq ++ map some payload })
  | base64 ↦ elim (Base64.decode payload 0) [
    | ok bytes ↦ ok (record ws { rq = ws.rq ++ bytes })
    | err e ↦ err e
  ]
]

unfoldable pub compact : Websock → Websock
compact ws =
    if ltb ws.rq_max (length ws.rq) then record ws { rq = drop ws.rqi ws.rq; rqi = 0 } else ws

-- The handlers are the owner's: one for 'message', which may throw and leaves the queue as it is
-- then, and one for 'error'.
module _ (on_message : Websock → Websock × Option Exception)
    (on_error : Exception → Websock → Websock) where
  unfoldable pub handle_message : Websock × Option Exception → Websock
  handle_message (ws, none) = compact ws
  handle_message (ws, some e) = on_error e ws

  unfoldable pub recv_message : List ℕ → Websock → Websock
  recv_message payload ws = elim (decode_message payload ws) [
    | err e ↦ on_error e ws
    | ok ws' ↦ if ltb_ℤ (pos 0) (rq_len ws') then handle_message (on_message ws') else ws'
  ]
