-- ===== src/Rfb/Session/Events.antt =====
-- statics/include/rfb.js: what drives the client, in any order: frames, timers, the socket's events, the page,
-- the keyboard and the mouse.
use routercenter_old.Prelude.{
  ℕ, Bool, true, false, not, ◌&&◌, Option, none, some, List, [], ◌∷◌, ◌++◌, ◌==◌, ltb,
  if◌then◌else◌,
}
use routercenter_old.Prelude.Int.{ℤ, pos, ltb_ℤ, ◌-ℤ◌}
use routercenter_old.Prelude.Result.{Result, ok, err}
use Prim.Native.Nat.{bit_or, bit_xor}
use routercenter_old.Websock
use routercenter_old.Websock.{Websock}
use routercenter_old.Keyboard.Xk
use routercenter_old.Rfb.{
  Task, flush_queue, more_messages, disconnect_timeout, to_disconnected, disconnected, retry_init,
  Call, viewport_moved, Rfb, call,
}
use routercenter_old.Rfb.Messages.{CleanDirty, key_event, pointer_event, client_cut_text}
use routercenter_old.Rfb.Queue.{send}
use routercenter_old.Rfb.Life.{
  clear_timer, update_state, fail, connect_to, disconnect_from, send_password, on_open, on_close,
  is_normal,
}
use routercenter_old.Rfb.Updates.{Effect}
use routercenter_old.Rfb.Session.{handle_message, init_msg, check_events}

-- The task of a timer that is pending; an interval stays, any other timer is gone when it fires.
unfoldable pub task_of : ℕ → List (ℕ × Task) → Option Task
task_of id [] = none
task_of id ((n, task) ∷ timers) =
    let rest = task_of id timers in if n == id then some task else rest

pub data Happening : Type 0 where
  opened : Option Websock.Mode → Happening
  closed : Happening
  frame : List ℕ → Happening
  fired : ℕ → Happening
  connected_to : List ℕ → ℕ → List ℕ → Happening
  disconnecting : Happening
  password_given : List ℕ → Happening
  key_pressed : ℤ → Bool → Happening
  mouse_pressed : ℤ × ℤ → ℤ → ℤ → Bool → ℕ → Happening
  mouse_moved : ℤ × ℤ → ℤ → ℤ → Happening
  pasting : List ℕ → Happening
  ctrl_alt_del : Happening
  key_sent : ℤ → Option Bool → Happening
  xvp_asked : ℕ → ℕ → Happening

module _ (buffered : Websock → ℕ) (gen_des : List ℕ → List (Option ℕ) → List ℕ)
    (clean_dirty : List Call → CleanDirty) (decode_utf8 : List ℕ → Result (List ℕ))
    (rest_of_encodings : ℤ → Rfb → Effect) where
  -- `_handleKeyPress`
  unfoldable pub handle_key_press : ℤ → Bool → Rfb → Rfb
  unfolding send
  handle_key_press keysym down r =
      if r.view_only then r else send buffered (key_event keysym down) r

  -- `_handleMouseButton` and `_handleMouseMove`: `at` is the position on the canvas, `x` and `y` the
  -- display's `absX` and `absY` of it.
  unfoldable pub handle_mouse_button : ℤ × ℤ → ℤ → ℤ → Bool → ℕ → Rfb → Rfb
  unfolding send
  handle_mouse_button at x y down bmask r =
      let mask =
        if down then bit_or r.mouse_button_mask bmask else bit_xor r.mouse_button_mask bmask in
      let r' : Rfb = record r { mouse_button_mask = mask } in
      let stopped : Rfb = record r' {
        viewport_dragging = if r.viewport_drag then false else r.viewport_dragging;
      } in
      if r.viewport_drag && (down && not r.viewport_dragging)
      then record r' { viewport_dragging = true; viewport_drag_pos = at }
      else if r.view_only
      then stopped
      else record (send buffered (r.mouse_arr ++ pointer_event x y mask) stopped) { mouse_arr = [] }

  unfoldable pub handle_mouse_move : ℤ × ℤ → ℤ → ℤ → Rfb → Rfb
  unfolding check_events
  handle_mouse_move at x y r =
      if r.viewport_dragging
      then call (viewport_moved (r.viewport_drag_pos.0 -ℤ at.0) (r.viewport_drag_pos.1 -ℤ at.1))
          (record r { viewport_drag_pos = at })
      else if r.view_only
      then r
      else check_events buffered gen_des clean_dirty decode_utf8 rest_of_encodings
          (record r { mouse_arr = r.mouse_arr ++ pointer_event x y r.mouse_button_mask })

  unfoldable pub clipboard_paste_from : List ℕ → Rfb → Rfb
  unfolding send
  clipboard_paste_from text r =
      if is_normal r.rfb_state then send buffered (client_cut_text text) r else r

  unfoldable pub send_ctrl_alt_del : Rfb → Rfb
  unfolding send
  send_ctrl_alt_del r =
      let press = λ (k : ℕ). key_event (pos k) true in
      let release = λ (k : ℕ). key_event (pos k) false in
      if not (is_normal r.rfb_state)
      then r
      else if r.view_only
      then r
      else send buffered
          (press Xk.control_l
            ++ (press Xk.alt_l
                ++ (press Xk.delete
                    ++ (release Xk.delete ++ (release Xk.alt_l ++ release Xk.control_l)))))
          r

  -- `sendKey(code, down)`: without `down` the key is pressed and let go of.
  unfoldable pub key_strokes : ℤ → Option Bool → List ℕ
  key_strokes code none = key_event code true ++ key_event code false
  key_strokes code (some down) = key_event code down

  unfoldable pub send_key : ℤ → Option Bool → Rfb → Rfb
  unfolding send key_strokes
  send_key code down r =
      if not (is_normal r.rfb_state)
      then r
      else if r.view_only
      then r
      else send buffered (key_strokes code down) r

  -- `xvpOp(ver, op)`: a version that is not known, `undefined`, is not below any.
  abbrev pub is_below : Option ℕ → ℕ → Bool
  is_below none ver = false
  is_below (some n) ver = ltb n ver

  unfoldable pub xvp_op : ℕ → ℕ → Rfb → Rfb
  unfolding send
  xvp_op ver op r = if is_below r.xvp_ver ver then r else send buffered (250 ∷ 0 ∷ ver ∷ op ∷ []) r

  -- What a task has done when it throws stays done.
  unfoldable pub run_task : Task → Rfb → Rfb
  unfolding fail update_state handle_message init_msg
  run_task flush_queue r = record r { sock = (Websock.flush (buffered r.sock) r.sock).1 }
  run_task more_messages r =
      (handle_message buffered gen_des clean_dirty decode_utf8 rest_of_encodings
        (record r { msg_timer = none })).1
  run_task disconnect_timeout r = fail r
  run_task to_disconnected r = update_state disconnected r
  run_task retry_init r = (init_msg buffered gen_des clean_dirty decode_utf8 rest_of_encodings r).1

  abbrev pub is_interval : Task → Bool
  is_interval flush_queue = true
  is_interval _ = false

  unfoldable pub fire_task : ℕ → Option Task → Rfb → Rfb
  unfolding clear_timer run_task
  fire_task id none r = r
  fire_task id (some task) r =
      run_task task
        (record r { timers = if is_interval task then r.timers else clear_timer id r.timers })

  unfoldable pub fire : ℕ → Rfb → Rfb
  unfolding task_of fire_task
  fire id r = fire_task id (task_of id r.timers) r

  -- `_recv_message` of websock.js with the handler of this client; an error of the handler is only
  -- logged, and the queue is compacted if there was none.
  unfoldable pub handled : Result (Unit {0}) × Rfb → Rfb
  handled (ok u, r) = record r { sock = Websock.compact r.sock }
  handled (err e, r) = r

  unfoldable pub decoded : Result Websock → Rfb → Rfb
  unfolding handle_message handled
  decoded (err e) r = r
  decoded (ok sock) r =
      let r' : Rfb = record r { sock = sock } in
      if not (ltb_ℤ (pos 0) (Websock.rq_len sock))
      then r'
      else if not r.hears_message
      then record r' { sock = Websock.compact sock }
      else handled (handle_message buffered gen_des clean_dirty decode_utf8 rest_of_encodings r')

  unfoldable pub receive : List ℕ → Rfb → Rfb
  unfolding decoded
  receive payload r = decoded (Websock.decode_message payload r.sock) r

  unfoldable pub happen : Happening → Rfb → Rfb
  unfolding on_open on_close receive fire connect_to disconnect_from send_password handle_key_press
      handle_mouse_button handle_mouse_move clipboard_paste_from send_ctrl_alt_del send_key xvp_op
  happen (opened protocol) r = on_open (record r { sock = Websock.on_open protocol r.sock })
  happen closed r = on_close r
  happen (frame payload) r = if r.receives then receive payload r else r
  happen (fired id) r = fire id r
  happen (connected_to host port passwd) r = connect_to host port passwd r
  happen disconnecting r = disconnect_from r
  happen (password_given passwd) r = send_password passwd r
  happen (key_pressed keysym down) r = handle_key_press keysym down r
  happen (mouse_pressed at x y down bmask) r = handle_mouse_button at x y down bmask r
  happen (mouse_moved at x y) r = handle_mouse_move at x y r
  happen (pasting text) r = clipboard_paste_from text r
  happen ctrl_alt_del r = send_ctrl_alt_del r
  happen (key_sent code down) r = send_key code down r
  happen (xvp_asked ver op) r = xvp_op ver op r

  unfoldable pub run : List Happening → Rfb → Rfb
  unfolding happen
  run [] r = r
  run (h ∷ hs) r = run hs (happen h r)
