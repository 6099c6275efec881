-- ===== src/Keyboard/Verify/Order.antt =====
-- What the delay of `VerifyCharModifier` does to a sequence of events.
use routercenter_old.Prelude.{
  ◌≡◌, refl, ap, ◌∙◌, sym, Bool, true, not, ◌&&◌, ◌⊎◌, inl, inr, Option, List, [], ◌∷◌, ◌++◌,
  append_assoc, append-nil, arith, Bool-cases,
}
use routercenter_old.Keyboard.Event.{Event, EventType, stall, keypress, KeyId}
use routercenter_old.Keyboard.Verify.{
  Waiting, merge, is_keypress, is_keydown, is_stall, drain, verify, timeout, Happening, came, fired,
  happen, run,
}

-- The keys that go down and up, in order: stalls carry nothing, and a keypress may be merged.
unfoldable pub kept : List Event → List (EventType × Option KeyId)
kept [] = []
kept (e ∷ es) = elim e.type [ stall ↦ kept es | keypress ↦ kept es | t ↦ (t, e.key_id) ∷ kept es ]

-- The events that have come.
unfoldable pub arrivals : List Happening → List Event
arrivals [] = []
arrivals (came e ∷ hs) = e ∷ arrivals hs
arrivals (fired ∷ hs) = arrivals hs

kept-append : (es fs : List Event) → kept (es ++ fs) ≡ kept es ++ kept fs
unfolding kept
kept-append [] fs = refl
kept-append (e ∷ es) fs = ground (arith, kept-append es fs)

kept-drain : (q : List Event) → kept (drain q).1 ++ kept (drain q).0.queue ≡ kept q
unfolding drain kept is_stall is_keydown is_keypress merge
kept-drain [] = refl
kept-drain (cur ∷ []) = ground arith
kept-drain (cur ∷ next ∷ rest) = ground (arith, kept-drain rest, kept-drain (next ∷ rest))

-- Unless the timer runs, nothing waits.
abbrev pub Settled : Waiting → Type 0
Settled w = (w.timer ≡ true) ⊎ (w.queue ≡ [])

drain-Settled : (q : List Event) → Settled (drain q).0
unfolding drain
drain-Settled [] = inr refl
drain-Settled (cur ∷ []) = ground arith
drain-Settled (cur ∷ next ∷ rest) = ground (arith, drain-Settled rest, drain-Settled (next ∷ rest))

unfoldable pub stall_free : List Event → Bool
unfolding is_stall
stall_free [] = true
stall_free (e ∷ es) = not (is_stall e.type) && stall_free es

stall_free-append : (es fs : List Event) → stall_free (es ++ fs) ≡ (stall_free es && stall_free fs)
unfolding stall_free
stall_free-append [] fs = refl
stall_free-append (e ∷ es) fs = ground (arith, stall_free-append es fs)

stall_free-drain : (q : List Event) → stall_free (drain q).1 ≡ true
unfolding drain stall_free merge
stall_free-drain [] = refl
stall_free-drain (cur ∷ []) = ground arith
stall_free-drain (cur ∷ next ∷ rest) =
    ground (arith, stall_free-drain rest, stall_free-drain (next ∷ rest))

-- One happening, by the queue that it leaves to drain.
happen-Settled : (w : Waiting) (h : Happening) → Settled w → Settled (happen w h).0
unfolding happen verify timeout
happen-Settled w (came e) s = elim (Bool-cases w.timer) [
  | inl t ↦ inl (rw t)
  | inr t ↦ rw t (drain-Settled (w.queue ++ e ∷ []))
]
happen-Settled w fired s = elim (Bool-cases w.timer) [
  | inl t ↦ rw t (drain-Settled w.queue)
  | inr t ↦ rw t (rw t at s)
]

stall_free-happen : (w : Waiting) (h : Happening) → stall_free (happen w h).1 ≡ true
unfolding happen verify timeout
stall_free-happen w (came e) = elim (Bool-cases w.timer) [
  | inl t ↦ rw t (unfold stall_free in refl)
  | inr t ↦ rw t (stall_free-drain (w.queue ++ e ∷ []))
]
stall_free-happen w fired = elim (Bool-cases w.timer) [
  | inl t ↦ rw t (stall_free-drain w.queue)
  | inr t ↦ rw t (unfold stall_free in refl)
]

kept-happen :
    (w : Waiting) (h : Happening)
    → kept (happen w h).1 ++ kept (happen w h).0.queue ≡ kept w.queue ++ kept (arrivals (h ∷ []))
unfolding happen verify timeout arrivals kept
kept-happen w (came e) = elim (Bool-cases w.timer) [
  | inl t ↦ rw t (kept-append w.queue (e ∷ []))
  | inr t ↦ rw t (kept-drain (w.queue ++ e ∷ []) ∙ kept-append w.queue (e ∷ []))
]
kept-happen w fired = elim (Bool-cases w.timer) [
  | inl t ↦ rw t (kept-drain w.queue ∙ sym (append-nil (kept w.queue)))
  | inr t ↦ rw t (sym (append-nil (kept w.queue)))
]

arrivals-cons :
    (h : Happening) (hs : List Happening)
    → kept (arrivals (h ∷ hs)) ≡ kept (arrivals (h ∷ [])) ++ kept (arrivals hs)
unfolding arrivals
arrivals-cons (came e) hs = kept-append (e ∷ []) (arrivals hs)
arrivals-cons fired hs = unfold kept in refl

-- From any state in which nothing waits unless the timer runs, whatever comes and fires: no stall is
-- passed on; the keys go down and up in the order in which they came, those that were waiting first,
-- none lost and none made up, where those that still wait come last; and again nothing waits unless
-- the timer runs.
pub run_lem :
    (hs : List Happening) (w : Waiting)
    → Settled w
    → (stall_free (run w hs).1 ≡ true)
      × (kept (run w hs).1 ++ kept (run w hs).0.queue ≡ kept w.queue ++ kept (arrivals hs))
      × Settled (run w hs).0
unfolding run
run_lem [] w s =
    (unfold stall_free in refl, unfold kept arrivals in sym (append-nil (kept w.queue)), s)
run_lem (h ∷ hs) w s =
    let w' = (happen w h).0 in
    let (free, order, settled) = run_lem hs w' (happen-Settled w h s) in
    (
      rw (stall_free-append, stall_free-happen w h, free),
      rw (kept-append, append_assoc, order, ← append_assoc, kept-happen w h, append_assoc)
          (ap (λ l. kept w.queue ++ l) (sym (arrivals-cons h hs))),
      settled,
    )
