-- ===== src/Rfb/Updates.antt =====
-- statics/include/rfb.js: framebuffer updates, and the encodings RAW, COPYRECT and RRE; HEXTILE is
-- in Rfb/Hextile.antt. What the display is
-- to draw is a list of calls. The handlers of the other encodings are an
-- argument, which says what they do.
use routercenter_old.Prelude.{
  ℕ, zero, suc, ◌+◌, ◌-◌, ◌*◌, ◌/◌, ◌^◌, Bool, true, false, not, ◌&&◌, ◌||◌, Option, none, some,
  List, [], ◌∷◌, ◌++◌, length, drop, ltb, ◌==◌, if◌then◌else◌,
}
use routercenter_old.Prelude.Int.{ℤ, pos, negsuc, pos_part, ◌+ℤ◌, ◌-ℤ◌, ltb_ℤ}
use routercenter_old.Prelude.Result.{Result, ok, err, stray}
use Prim.Native.Nat.{min}
use routercenter_old.Websock
use routercenter_old.Websock.{Websock, to_int32}
use routercenter_old.Rfb.{
  Call, blitted, copied, filled, fbu_received, fbu_completed, Fbu, Rfb, M, ◌>>=◌, ◌>>◌, pure,
  modify, with_fbu, call,
}
use routercenter_old.Rfb.Queue.{shift16, shift32, shift_bytes, skip8, wait}
use routercenter_old.Rfb.Life.{fail, is_normal}
use routercenter_old.Rfb.Words.{rounds}
use routercenter_old.Rfb.Hextile.{hextile}

-- `rects--` and `bytes = 0`, at the end of a rectangle.
abbrev pub rect_done : Fbu → Fbu
rect_done u = record u { rects = u.rects - 1; bytes = 0 }

-- `Math.min(lines, Math.floor(len / line))`: a line of no bytes divides to infinity. With nothing in
-- the queue it divides to what is not a number, where the model ends.
unfoldable pub whole_lines : ℕ → ℕ → ℕ → Option ℕ
whole_lines lines len line =
    if line == 0 then (if len == 0 then none else some lines) else some (min lines (len / line))

-- As many whole lines as are there are handed to the display, with the bytes of the queue.
unfoldable pub draw_lines : ℕ → Rfb → Rfb
draw_lines curr_height r =
    let u = r.fbu in
    let line = u.width * r.fb_bpp in
    let cur_y = u.y + (u.height - u.lines) in
    let drawn =
      blitted (pos u.x) (pos cur_y) (pos u.width) (pos curr_height) (drop r.sock.rqi r.sock.rq) in
    let u' : Fbu = record u { lines = u.lines - curr_height } in
    record (call drawn r) {
      sock = Websock.rq_skip_bytes (u.width * curr_height * r.fb_bpp) r.sock;
      fbu = if ltb 0 u'.lines then record u' { bytes = line } else rect_done u';
    }

unfoldable pub draw_some : Option ℕ → M Bool
unfolding draw_lines
draw_some none r = (err stray, r)
draw_some (some curr_height) r = (ok true, draw_lines curr_height r)

unfoldable pub raw_lines : M Bool
unfolding whole_lines draw_some
raw_lines r =
    draw_some (whole_lines r.fbu.lines (pos_part (Websock.rq_len r.sock)) (r.fbu.width * r.fb_bpp))
      r

unfoldable pub raw : M Bool
unfolding raw_lines wait
raw = do
  modify (with_fbu (λ u. record u { lines = if u.lines == 0 then u.height else u.lines }))
  modify (λ r. with_fbu (λ u. record u { bytes = u.width * r.fb_bpp }) r)
  short ← (λ r. wait (some (pos r.fbu.bytes)) (pos 0) r)
  if short then pure false else raw_lines

unfoldable pub copy_rect : M Bool
unfolding wait shift16
copy_rect = do
  modify (with_fbu (λ u. record u { bytes = 4 }))
  short ← wait (some (pos 4)) (pos 0)
  if short then pure false else do
    old_x ← shift16
    old_y ← shift16
    modify (λ r.
        call (copied old_x old_y (pos r.fbu.x) (pos r.fbu.y) (pos r.fbu.width) (pos r.fbu.height))
          r)
    modify (with_fbu rect_done)
    pure true

-- A sum with a number that may be missing, as the display takes it.
abbrev plus_number : ℕ → Option ℤ → ℤ
plus_number n none = pos n
plus_number n (some v) = pos n +ℤ v

abbrev number : Option ℤ → ℤ
number none = pos 0
number (some v) = v

abbrev pub is_zero : ℤ → Bool
is_zero (pos n) = n == 0
is_zero (negsuc n) = false

-- One subrectangle.
unfoldable pub rre_subrect : M (Unit {0})
unfolding shift16 shift_bytes
rre_subrect = do
  color ← (λ r. shift_bytes r.fb_bpp r)
  x ← shift16
  y ← shift16
  width ← shift16
  height ← shift16
  modify (λ r.
      call
        (filled (plus_number r.fbu.x x) (plus_number r.fbu.y y) (number width) (number height)
          color)
        r)
  modify (with_fbu (λ u. record u { subrects = u.subrects -ℤ pos 1 }))

-- `while (subrects > 0 && rQlen() >= bpp + 8)`; each round takes one subrectangle off.
unfoldable pub rre_loop : ℕ → M (Unit {0})
unfolding rre_subrect
rre_loop zero r = (ok tt, r)
rre_loop (suc f) r =
    elim (ltb_ℤ (pos 0) r.fbu.subrects
      && not (ltb_ℤ (Websock.rq_len r.sock) (pos (r.fb_bpp + 8)))) [
        | true ↦ (do rre_subrect; rre_loop f) r
        | false ↦ (ok tt, r)
      ]

-- The number of subrectangles, and the background.
unfoldable pub rre_header : M Bool
unfolding wait shift32 shift_bytes
rre_header = do
  modify (λ r. with_fbu (λ u. record u { bytes = 4 + r.fb_bpp }) r)
  short ← (λ r. wait (some (pos (4 + r.fb_bpp))) (pos 0) r)
  if short then pure false else do
    subrects ← shift32
    color ← (λ r. shift_bytes r.fb_bpp r)
    modify (λ r.
        call (filled (pos r.fbu.x) (pos r.fbu.y) (pos r.fbu.width) (pos r.fbu.height) color) r)
    modify (with_fbu (λ u. record u { subrects = number subrects }))
    pure true

-- `_rre_chunk_sz` is 100.
unfoldable pub rre_rest : Rfb → Rfb
rre_rest r =
    if ltb_ℤ (pos 0) r.fbu.subrects
    then with_fbu (λ u. record u { bytes = (r.fb_bpp + 8) * min 100 (pos_part u.subrects) }) r
    else with_fbu rect_done r

unfoldable pub rre : M Bool
unfolding rre_header rre_loop rre_rest
rre = do
  ready ← (λ r. if is_zero r.fbu.subrects then rre_header r else (ok true, r))
  if not ready
      then pure false
      else do (λ r. rre_loop (pos_part r.fbu.subrects) r); modify rre_rest; pure true

-- The twelve bytes of a rectangle's header; `none` if one is missing.
unfoldable pub rect_header : List (Option ℕ) → Fbu → Option Fbu
rect_header
      (some a
        ∷ some b
        ∷ some c
        ∷ some d
        ∷ some e
        ∷ some f
        ∷ some g
        ∷ some h
        ∷ some i
        ∷ some j
        ∷ some k
        ∷ some l
        ∷ [])
      u =
    some (record u {
      x = a * 2 ^ 8 + b;
      y = c * 2 ^ 8 + d;
      width = e * 2 ^ 8 + f;
      height = g * 2 ^ 8 + h;
      encoding = to_int32 (i * 2 ^ 24) +ℤ pos (j * 2 ^ 16 + k * 2 ^ 8 + l);
    })
rect_header _ u = none

-- The numbers of `_encodings`, each with a name.
unfoldable pub has_name : ℤ → Bool
has_name (pos n) = n == 1 || (n == 7 || (n == 5 || (n == 2 || n == 0)))
has_name (negsuc n) =
    n == 259
    || (n == 222 || (n == 238 || (n == 25 || (n == 246 || (n == 223 || (n == 308 || n == 307))))))

unfoldable pub begin_rect : Option Fbu → M Bool
unfolding has_name fail
begin_rect none r = (err stray, r)
begin_rect (some u) r =
    let r' : Rfb = call (fbu_received u.x u.y u.width u.height u.encoding) (record r { fbu = u }) in
    if has_name u.encoding then (ok true, r') else (ok false, fail r')

unfoldable pub start_rect : M Bool
unfolding wait shift_bytes rect_header begin_rect
start_rect = do
  short ← wait (some (pos 12)) (pos 0)
  if short then pure false else do hdr ← shift_bytes 12; λ r. begin_rect (rect_header hdr r.fbu) r

-- What the handler of another encoding does: it answers, or throws, it reads the socket's queue, it
-- changes what is left of the rectangle and the size of the screen, it calls the display, and it may
-- fail at the end.
pub record Effect : Type 0 where
  pub answer : Result Bool
  pub sock : Websock
  pub fbu : Fbu
  pub fb_width : Option ℤ
  pub fb_height : Option ℤ
  pub calls : List Call
  pub fails : Bool

unfoldable pub take_effect : Effect → M Bool
unfolding fail
take_effect e r =
    let r' : Rfb = record r {
      sock = e.sock;
      fbu = e.fbu;
      fb_width = e.fb_width;
      fb_height = e.fb_height;
      calls = r.calls ++ e.calls;
    } in
    (e.answer, if e.fails then fail r' else r')

module _ (other : ℤ → Rfb → Effect) where
  unfoldable pub handle_other : ℤ → M Bool
  unfolding take_effect
  handle_other n r = take_effect (other n r) r

  -- `_encHandlers[encoding]()`
  unfoldable pub decode_rect : ℤ → M Bool
  unfolding raw copy_rect rre hextile handle_other
  decode_rect (pos n) =
      if n == 0
      then raw
      else if n == 1
      then copy_rect
      else if n == 2
      then rre
      else if n == 5
      then hextile
      else handle_other (pos n)
  decode_rect (negsuc n) = handle_other (negsuc n)

  -- One round of the loop: a new rectangle is begun if no bytes are expected.
  unfoldable pub update_round : M Bool
  unfolding wait start_rect decode_rect
  update_round = do
    short ← (λ r. wait (some (pos r.fbu.bytes)) (pos 0) r)
    if short then pure false else do
      ready ← (λ r. if r.fbu.bytes == 0 then start_rect r else (ok true, r))
      if ready then (λ r. decode_rect r.fbu.encoding r) else pure false

  -- `none` of the rounds is left over in a run that ends by `stray`.
  unfoldable pub update_loop : ℕ → M Bool
  unfolding update_round
  update_loop zero r = (err stray, r)
  update_loop (suc f) r = elim (ltb 0 r.fbu.rects) [
    | false ↦ (ok true, r)
    | true ↦ elim (is_normal r.rfb_state) [
      | false ↦ (ok false, r)
      | true ↦ (do done ← update_round; elim done [ true ↦ update_loop f | false ↦ pure false ]) r
    ]
  ]

  -- A byte of the queue for each round, and a round for each rectangle.
  abbrev pub rounds_for : Rfb → ℕ
  rounds_for r = length r.sock.rq + r.fbu.rects + 1

  -- The number of rectangles, at the beginning of an update.
  unfoldable pub begin_update : M Bool
  unfolding wait skip8 shift16
  begin_update = do
    short ← wait (some (pos 3)) (pos 1)
    if short then pure false else do
      skip8
      rects ← shift16
      modify (with_fbu (λ u. record u { rects = rounds rects; bytes = 0 }))
      pure true

  unfoldable pub framebuffer_update : M Bool
  unfolding begin_update update_loop
  framebuffer_update = do
    ready ← (λ r. if r.fbu.rects == 0 then begin_update r else (ok true, r))
    if not ready then pure false else do
      done ← (λ r. update_loop (rounds_for r) r)
      if not done then pure false else do
        modify (λ r. call (fbu_completed r.fbu.x r.fbu.y r.fbu.width r.fbu.height r.fbu.encoding) r)
        pure true
