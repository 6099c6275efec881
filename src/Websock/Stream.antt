-- ===== src/Websock/Stream.antt =====
-- From `send` on one end of a connection to the receive queue on the other, both by websock.js.
use routercenter_old.Prelude.{
  ℕ, ◌%◌, ◌≡◌, refl, ◌∙◌, List, [], ◌∷◌, ◌++◌, map, append_assoc, append-nil, arith, length, ltb,
  some, Option, ap₂, inl, inr, Bool-cases,
}
use mathlib.Core.List.{map-append}
use routercenter_old.Prelude.All.{All, All-append, All-append_parts, IsByte}
use routercenter_old.Prelude.Result.{Result, ok, err, Result-cases}
use routercenter_old.Base64.RoundTrip.{decode-encode}
use routercenter_old.Websock.{Websock, send, flush, encode_message, decode_message}

-- The owner's calls of `send`, each with the `bufferedAmount` that the socket shows then.
unfoldable pub send_all : List (List ℕ × ℕ) → Websock → Websock
send_all [] ws = ws
send_all ((arr, buffered) ∷ calls) ws = send_all calls (send arr buffered ws).1

-- All that the calls hand over, in order.
unfoldable pub handed : List (List ℕ × ℕ) → List ℕ
handed [] = []
handed ((arr, buffered) ∷ calls) = arr ++ handed calls

-- The frames reach the other end in order.
unfoldable pub receive_all : List (List ℕ) → Websock → Result Websock
receive_all [] ws = ok ws
receive_all (payload ∷ rest) ws = elim (decode_message payload ws) [
  | err e ↦ err e
  | ok ws' ↦ receive_all rest ws'
]

receive_all_snoc :
    (frames : List (List ℕ)) (payload : List ℕ) (r r' r'' : Websock)
    → receive_all frames r ≡ ok r'
    → decode_message payload r' ≡ ok r''
    → receive_all (frames ++ payload ∷ []) r ≡ ok r''
unfolding receive_all
receive_all_snoc [] payload r r' r'' h d = ground arith
receive_all_snoc (f ∷ frames) payload r r' r'' h d = elim (Result-cases (decode_message f r)) [
  | inl (w, c) ↦
      rw (c, receive_all) (receive_all_snoc frames payload w r' r'' (rw (c, receive_all) at h) d)
  | inr (x, c) ↦ absurd (ground arith)
]

wrap-byte : (xs : List ℕ) → All IsByte xs → map (λ v. v % 256) xs ≡ xs
wrap-byte [] h = refl
wrap-byte (x ∷ xs) h = ap₂ ◌∷◌ (omega arith) (wrap-byte xs h.1)

-- What one end encodes the other end, in the same mode, appends to its queue.
pub decode_message-encode_message :
    (ws r : Websock)
    → All IsByte ws.sq
    → r.mode ≡ ws.mode
    → decode_message (encode_message ws) r ≡ ok (record r { rq = r.rq ++ map some ws.sq })
unfolding decode_message encode_message
decode_message-encode_message ws r h m = ground (arith, wrap-byte ws.sq h, decode-encode ws.sq h)

-- What the far end has got of the frames sent so far, with what still waits to be sent.
pub record Delivers (r ws : Websock) (all : List (Option ℕ)) : Type 0 where
  pub far : Websock
  pub received : receive_all ws.sent r ≡ ok far
  pub same_mode : far.mode ≡ ws.mode
  pub whole : far.rq ++ map some ws.sq ≡ all

module _ (r ws : Websock) (all : List (Option ℕ)) (d : Delivers r ws all) where
  -- The bytes handed over wait behind the others.
  queued-Delivers :
      (arr : List ℕ) → Delivers r (record ws { sq = ws.sq ++ arr }) (all ++ map some arr)
  queued-Delivers arr = record {
    far = d.far;
    received = d.received;
    same_mode = d.same_mode;
    whole = rw (map-append, ← append_assoc, d.whole);
  }

  -- A frame takes all that waits to the far end.
  framed-Delivers :
      All IsByte ws.sq
      → Delivers r (record ws { sent = ws.sent ++ encode_message ws ∷ []; sq = [] }) all
  framed-Delivers h = record {
    far = record d.far { rq = d.far.rq ++ map some ws.sq };
    received =
        receive_all_snoc ws.sent (encode_message ws) r d.far _ d.received
          (decode_message-encode_message ws d.far h d.same_mode);
    same_mode = d.same_mode;
    whole = append-nil _ ∙ d.whole;
  }

  flush-Delivers :
      (buffered : ℕ)
      → All IsByte ws.sq
      → Delivers r (flush buffered ws).1 all × All IsByte (flush buffered ws).1.sq
  unfolding flush
  flush-Delivers buffered h = elim (Bool-cases (ltb buffered ws.max_buffered_amount)) [
    | inr e ↦ rw e (d, h)
    | inl e ↦ elim (Bool-cases (ltb 0 (length ws.sq))) [
      | inl some_wait ↦ rw (e, some_wait) (framed-Delivers h, tt)
      | inr none_wait ↦ rw (e, none_wait) (d, h)
    ]
  ]

pub send_all-Delivers :
    (calls : List (List ℕ × ℕ)) (r ws : Websock) (all : List (Option ℕ))
    → All IsByte ws.sq
    → All IsByte (handed calls)
    → Delivers r ws all
    → Delivers r (send_all calls ws) (all ++ map some (handed calls))
unfolding send_all send handed
send_all-Delivers [] r ws all hs ha d = rw append-nil d
send_all-Delivers ((arr, buffered) ∷ calls) r ws all hs ha d =
    let (first, later) = All-append_parts IsByte arr (handed calls) ha in
    let queued = record ws { sq = ws.sq ++ arr } in
    let (d', hs') =
      flush-Delivers r queued (all ++ map some arr) (queued-Delivers r ws all d arr) buffered
        (All-append IsByte ws.sq arr hs first) in
    rw (map-append, ← append_assoc)
      (send_all-Delivers calls r (flush buffered queued).1 (all ++ map some arr) hs' later d')

-- On a new connection whose ends use the same mode, whatever the socket holds back at each call of
-- `send`: the far end can read every frame, and the bytes in its queue, followed by those that still
-- wait to be sent, are the bytes that were there before and then all bytes handed to `send`, in
-- order. (The data are bytes, and nothing is read off the far queue meanwhile.)
pub send_all_lem :
    (calls : List (List ℕ × ℕ)) (ws r : Websock)
    → ws.sent ≡ []
    → ws.sq ≡ []
    → r.mode ≡ ws.mode
    → All IsByte (handed calls)
    → (far : Websock) × (receive_all (send_all calls ws).sent r ≡ ok far)
      × (far.rq ++ map some (send_all calls ws).sq ≡ r.rq ++ map some (handed calls))
unfolding receive_all
send_all_lem calls ws r no_frame none_wait m h =
    let start : Delivers r ws r.rq = record {
      far = r;
      received = rw no_frame;
      same_mode = m;
      whole = rw none_wait (append-nil r.rq);
    } in
    let d = send_all-Delivers calls r ws r.rq (rw none_wait tt) h start in
    (d.far, d.received, d.whole)
