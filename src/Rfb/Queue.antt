-- ===== src/Rfb/Queue.antt =====
-- statics/include/websock.js as rfb.js calls it, with the lengths that it reads from the queue: signed
-- numbers, or `none` where a byte was missing, so that the sum is not a number.
use routercenter_old.Prelude.{
  ℕ, suc, ◌-◌, ltb, Bool, true, false, Option, none, some, List, [], if◌then◌else◌,
}
use routercenter_old.Prelude.Int.{ℤ, pos, negsuc, pos_part, ltb_ℤ, ◌-ℤ◌}
use routercenter_old.Prelude.Result.{ok, err, cannot_backup, stray}
use routercenter_old.Websock
use routercenter_old.Websock.{Websock}
use routercenter_old.Rfb.{Rfb, M}

-- `this._sock.…`, with the answer and the changed socket
abbrev on_sock {ℓ} : {A : Type ℓ} → (Websock → A × Websock) → M A
on_sock f r = let (a, sock) = f r.sock in (ok a, record r { sock = sock })

unfoldable pub shift8 : M (Option ℕ)
shift8 = on_sock Websock.rq_shift8

unfoldable pub shift16 : M (Option ℤ)
shift16 = on_sock Websock.rq_shift16

unfoldable pub shift32 : M (Option ℤ)
shift32 = on_sock Websock.rq_shift32

unfoldable pub shift_bytes : ℕ → M (List (Option ℕ))
shift_bytes len = on_sock (Websock.rq_shift_bytes len)

unfoldable pub shift_rest : M (List (Option ℕ))
shift_rest = on_sock Websock.rq_shift_rest

unfoldable pub skip_bytes : ℕ → M (Unit {0})
skip_bytes num r = (ok tt, record r { sock = Websock.rq_skip_bytes num r.sock })

unfoldable pub skip8 : M (Unit {0})
skip8 r = (ok tt, record r { sock = Websock.rq_skip8 r.sock })

-- The index after `len` chars. A negative length takes no chars and moves the index back; the model
-- ends, by `stray`, where that would make the index negative. The callers for which the length may
-- not be a number fail at once, and nothing reads the queue before it is reset: its index is left.
unfoldable pub shift_str : Option ℤ → M (List ℕ)
shift_str none r = (ok [], r)
shift_str (some (pos n)) r =
    let (text, sock) = Websock.rq_shift_str n r.sock in (ok text, record r { sock = sock })
shift_str (some (negsuc n)) r =
    if ltb n r.sock.rqi
    then (ok [], record r { sock = Websock.set_rqi (r.sock.rqi - suc n) r.sock })
    else (err stray, r)

-- `rQwait(msg, num, goback)`: a comparison with what is not a number is false.
unfoldable pub wait : Option ℤ → ℤ → M Bool
wait none goback r = (ok false, r)
wait (some num) goback r =
    if ltb_ℤ (Websock.rq_len r.sock) num
    then (if ltb_ℤ (pos r.sock.rqi) goback then (err (cannot_backup (pos_part goback)), r) else (
      ok true,
      record r { sock = Websock.set_rqi (pos_part (pos r.sock.rqi -ℤ goback)) r.sock },
    ))
    else (ok false, r)

-- `bufferedAmount`, which the browser knows, decides at each `send` whether the queue is flushed.
module _ (buffered : Websock → ℕ) where
  unfoldable pub send : List ℕ → Rfb → Rfb
  send arr r = record r { sock = (Websock.send arr (buffered r.sock) r.sock).1 }
