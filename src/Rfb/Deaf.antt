-- ===== src/Rfb/Deaf.antt =====
-- What is left of a client of statics/include/rfb.js after `disconnect`.
use routercenter_old.Prelude.{
  ℕ, ◌≡◌, refl, Bool, true, false, not, Option, none, some, List, [], ◌∷◌, ◌==◌, if◌then◌else◌,
  arith, Bool-cases, inl, inr,
}
use routercenter_old.Prelude.Int.{ℤ, pos, ltb_ℤ}
use routercenter_old.Prelude.Result.{Result, ok, err}
use routercenter_old.Websock
use routercenter_old.Websock.{Websock}
use routercenter_old.Rfb.{
  State, disconnected, loaded, connect, disconnect, failed, fatal, normal, password,
  protocol_version, security, authentication, security_result, client_initialisation,
  server_initialisation, Task, flush_queue, more_messages, disconnect_timeout, to_disconnected,
  retry_init, Call, Rfb, ◌>>=◌, pure,
}
use routercenter_old.Rfb.Messages.{CleanDirty, key_event, client_cut_text}
use routercenter_old.Rfb.Queue.{send}
use routercenter_old.Rfb.Life.{
  update_state, fail, enter, stop_disconnecting, cleanup_socket, closes, connect_to,
  disconnect_from, set_timer, send_password, on_open, on_close, closed_by_server, is_connect,
  is_normal, clear_timer,
}
use routercenter_old.Rfb.Updates.{Effect}
use routercenter_old.Rfb.Words.{is_number}
use routercenter_old.Rfb.Keeps.{
  P, Keeps, after, if_after, if_state, client_init-Keeps, negotiate_protocol_version-Keeps,
  negotiate_authentication-Keeps, handle_security_result-Keeps, negotiate_security-Keeps,
}
use routercenter_old.Rfb.Keeps.Session.{negotiate_server_init-Keeps, handle_normal-Keeps}
use routercenter_old.Rfb.Session.{init_step, init_msg, message_step, handle_message, check_events}
use routercenter_old.Rfb.Session.Events.{
  Happening, opened, closed, frame, fired, connected_to, disconnecting, password_given, key_pressed,
  mouse_pressed, mouse_moved, pasting, ctrl_alt_del, key_sent, xvp_asked, send_key, xvp_op,
  is_below, task_of, run_task, fire_task, fire, handled, decoded, receive, happen, run, is_interval,
  handle_key_press, handle_mouse_button, handle_mouse_move, clipboard_paste_from, send_ctrl_alt_del,
}

abbrev Q : State → Bool → Bool → Type 0
Q s o m = (o ≡ false) × (m ≡ false)

enter_deaf : (s : State) (r : Rfb) → P Q r → P Q (enter s r)
unfolding enter set_timer
enter_deaf disconnected r p = p
enter_deaf loaded r p = p
enter_deaf connect r p = p
enter_deaf disconnect r p = p
enter_deaf failed r p = p
enter_deaf fatal r p = p
enter_deaf normal r p = p
enter_deaf password r p = p
enter_deaf protocol_version r p = p
enter_deaf security r p = p
enter_deaf authentication r p = p
enter_deaf security_result r p = p
enter_deaf client_initialisation r p = p
enter_deaf server_initialisation r p = p

stop_deaf : (r : Rfb) → P Q r → P Q (stop_disconnecting r)
unfolding stop_disconnecting
stop_deaf r p = (ground (arith, p), ground (arith, p))

update_deaf : (s : State) (r : Rfb) → P Q r → P Q (update_state s r)
unfolding update_state cleanup_socket
update_deaf s r p = enter_deaf s _ (stop_deaf _ (if_state Q (closes s) _ _ p p))

moves : (s : State) → true ≡ true → (r : Rfb) → P Q r → P Q (update_state s r)
moves s a r p = update_deaf s r p

closed_by_server_deaf : (s : State) (r : Rfb) → P Q r → P Q (closed_by_server s r)
unfolding closed_by_server fail
closed_by_server_deaf disconnected r p = p
closed_by_server_deaf loaded r p = update_deaf failed r p
closed_by_server_deaf connect r p = update_deaf failed r p
closed_by_server_deaf disconnect r p = update_deaf disconnected r p
closed_by_server_deaf failed r p = p
closed_by_server_deaf fatal r p = update_deaf failed r p
closed_by_server_deaf normal r p = update_deaf failed r p
closed_by_server_deaf password r p = update_deaf failed r p
closed_by_server_deaf protocol_version r p = update_deaf failed r p
closed_by_server_deaf security r p = update_deaf failed r p
closed_by_server_deaf authentication r p = update_deaf failed r p
closed_by_server_deaf security_result r p = update_deaf failed r p
closed_by_server_deaf client_initialisation r p = update_deaf failed r p
closed_by_server_deaf server_initialisation r p = update_deaf failed r p

on_open_deaf : (r : Rfb) → P Q r → P Q (on_open r)
unfolding on_open fail
on_open_deaf r p = if_state Q (not r.hears_open) _ _ p (
    if_state Q (is_connect r.rfb_state) _ _ (update_deaf protocol_version r p)
      (update_deaf failed r p))

on_close_deaf : (r : Rfb) → P Q r → P Q (on_close r)
unfolding on_close
on_close_deaf r p =
    if_state Q (not r.hears_close) _
      (record (closed_by_server r.rfb_state r) { hears_close = false }) p
      (closed_by_server_deaf r.rfb_state r p)

connect_to_deaf :
    (host : List ℕ) (port : ℕ) (passwd : List ℕ) (r : Rfb)
    → P Q r
    → P Q (connect_to host port passwd r)
unfolding connect_to fail
connect_to_deaf [] port passwd r p =
    update_deaf failed (record r { host = []; port = port; rfb_password = passwd }) p
connect_to_deaf (c ∷ cs) port passwd r p =
    let r' : Rfb = record r { host = c ∷ cs; port = port; rfb_password = passwd } in
    if_state Q (port == 0) _ _ (update_deaf failed r' p) (update_deaf connect r' p)

module _ (buffered : Websock → ℕ) (gen_des : List ℕ → List (Option ℕ) → List ℕ)
    (clean_dirty : List Call → CleanDirty) (decode_utf8 : List ℕ → Result (List ℕ))
    (other : ℤ → Rfb → Effect) where
  init_step_deaf :
      (s : State) → Keeps Q (init_step buffered gen_des clean_dirty decode_utf8 other s)
  unfolding init_step
  init_step_deaf disconnected = λ r p. p
  init_step_deaf loaded = λ r p. p
  init_step_deaf connect = λ r p. p
  init_step_deaf disconnect = λ r p. p
  init_step_deaf failed = λ r p. p
  init_step_deaf fatal = λ r p. p
  init_step_deaf normal = λ r p. p
  init_step_deaf password = λ r p. p
  init_step_deaf protocol_version =
      negotiate_protocol_version-Keeps Q buffered gen_des (λ _. true) moves refl refl
  init_step_deaf security =
      negotiate_security-Keeps Q buffered gen_des (λ _. true) moves refl refl refl refl refl refl
  init_step_deaf authentication =
      negotiate_authentication-Keeps Q buffered gen_des (λ _. true) moves refl refl refl refl refl
  init_step_deaf security_result =
      handle_security_result-Keeps Q buffered gen_des (λ _. true) moves refl refl refl
  init_step_deaf client_initialisation = client_init-Keeps Q buffered gen_des (λ _. true) moves refl
  init_step_deaf server_initialisation =
      negotiate_server_init-Keeps Q (λ _. true) moves buffered gen_des clean_dirty decode_utf8 other
        refl

  no_answer_deaf :
      Keeps Q (
        init_msg buffered gen_des clean_dirty decode_utf8 other >>= λ _. pure {0} {A = Unit {0}} tt)
  unfolding init_msg ◌>>=◌
  no_answer_deaf r p =
      after Q (λ _. pure {0} {A = Unit {0}} tt)
        (init_msg buffered gen_des clean_dirty decode_utf8 other r) (init_step_deaf r.rfb_state r p)
        (λ _ _ p. p)

  message_step_deaf :
      (s : State) → Keeps Q (message_step buffered gen_des clean_dirty decode_utf8 other s)
  unfolding message_step
  message_step_deaf disconnected = λ r p. p
  message_step_deaf loaded = no_answer_deaf
  message_step_deaf connect = no_answer_deaf
  message_step_deaf disconnect = no_answer_deaf
  message_step_deaf failed = λ r p. p
  message_step_deaf fatal = no_answer_deaf
  message_step_deaf normal =
      handle_normal-Keeps Q (λ _. true) moves buffered gen_des clean_dirty decode_utf8 other refl
        (λ r. update_deaf r.rfb_state r)
  message_step_deaf password = no_answer_deaf
  message_step_deaf protocol_version = no_answer_deaf
  message_step_deaf security = no_answer_deaf
  message_step_deaf authentication = no_answer_deaf
  message_step_deaf security_result = no_answer_deaf
  message_step_deaf client_initialisation = no_answer_deaf
  message_step_deaf server_initialisation = no_answer_deaf

  handle_message_deaf : Keeps Q (handle_message buffered gen_des clean_dirty decode_utf8 other)
  unfolding handle_message
  handle_message_deaf r p =
      if_after Q (is_number 0 (some (Websock.rq_len r.sock))) _ _ p
        (message_step_deaf r.rfb_state r p)

  run_task_deaf :
      (task : Task) (r : Rfb)
      → P Q r
      → P Q (run_task buffered gen_des clean_dirty decode_utf8 other task r)
  unfolding run_task fail init_msg
  run_task_deaf flush_queue r p = p
  run_task_deaf more_messages r p = handle_message_deaf (record r { msg_timer = none }) p
  run_task_deaf disconnect_timeout r p = update_deaf failed r p
  run_task_deaf to_disconnected r p = update_deaf disconnected r p
  run_task_deaf retry_init r p = init_step_deaf r.rfb_state r p

  fire_task_deaf :
      (id : ℕ) (task : Option Task) (r : Rfb)
      → P Q r
      → P Q (fire_task buffered gen_des clean_dirty decode_utf8 other id task r)
  unfolding fire_task
  fire_task_deaf id none r p = p
  fire_task_deaf id (some task) r p =
      run_task_deaf task
        (record r {
          timers =
              if is_interval buffered gen_des clean_dirty decode_utf8 other task
              then r.timers
              else clear_timer id r.timers;
        })
        p

  handled_deaf :
      (out : Result (Unit {0}) × Rfb)
      → P Q out.1
      → P Q (handled buffered gen_des clean_dirty decode_utf8 other out)
  unfolding handled
  handled_deaf (ok u, r) p = p
  handled_deaf (err e, r) p = p

  decoded_deaf :
      (out : Result Websock) (r : Rfb)
      → P Q r
      → P Q (decoded buffered gen_des clean_dirty decode_utf8 other out r)
  unfolding decoded
  decoded_deaf (err e) r p = p
  decoded_deaf (ok sock) r p =
      let r' : Rfb = record r { sock = sock } in
      if_state Q (not (ltb_ℤ (pos 0) (Websock.rq_len sock))) r' _ p (
        if_state Q (not r.hears_message) (record r' { sock = Websock.compact sock }) _ p
          (handled_deaf (handle_message buffered gen_des clean_dirty decode_utf8 other r')
            (handle_message_deaf r' p)))

  happen_deaf :
      (h : Happening) (r : Rfb)
      → P Q r
      → P Q (happen buffered gen_des clean_dirty decode_utf8 other h r)
  unfolding happen fire receive send_password set_timer disconnect_from handle_key_press
      handle_mouse_button handle_mouse_move check_events clipboard_paste_from send_ctrl_alt_del send
      send_key xvp_op
  happen_deaf (opened protocol) r p =
      on_open_deaf (record r { sock = Websock.on_open protocol r.sock }) p
  happen_deaf closed r p = on_close_deaf r p
  happen_deaf (frame payload) r p =
      if_state Q r.receives _ _ (decoded_deaf (Websock.decode_message payload r.sock) r p) p
  happen_deaf (fired id) r p = fire_task_deaf id (task_of id r.timers) r p
  happen_deaf (connected_to host port passwd) r p = connect_to_deaf host port passwd r p
  happen_deaf disconnecting r p = (refl, refl)
  happen_deaf (password_given passwd) r p = p
  happen_deaf (key_pressed keysym down) r p =
      if_state Q r.view_only _ (send buffered (key_event keysym down) r) p p
  happen_deaf (mouse_pressed at x y down bmask) r p = (ground (arith, p), ground (arith, p))
  happen_deaf (mouse_moved at x y) r p = (ground (arith, p), ground (arith, p))
  happen_deaf (pasting text) r p =
      if_state Q (is_normal r.rfb_state) (send buffered (client_cut_text text) r) _ p p
  happen_deaf ctrl_alt_del r p = (ground (arith, p), ground (arith, p))
  happen_deaf (key_sent code down) r p = (ground (arith, p), ground (arith, p))
  happen_deaf (xvp_asked ver op) r p =
      if_state Q (is_below buffered gen_des clean_dirty decode_utf8 other r.xvp_ver ver) _
        (send buffered (250 ∷ 0 ∷ ver ∷ op ∷ []) r) p p

  run_deaf :
      (hs : List Happening) (r : Rfb)
      → P Q r
      → P Q (run buffered gen_des clean_dirty decode_utf8 other hs r)
  unfolding run
  run_deaf [] r p = p
  run_deaf (h ∷ hs) r p = run_deaf hs _ (happen_deaf h r p)

  on_open_unheard : (r : Rfb) → r.hears_open ≡ false → on_open r ≡ r
  unfolding on_open
  on_open_unheard r e = rw e refl

  -- A frame changes the receive queue at most.
  abbrev pub OnlySocket : Rfb → Rfb → Type 0
  OnlySocket r r' = (sock : Websock) × (r' ≡ record r { sock = sock })

  decoded_unheard :
      (out : Result Websock) (r : Rfb)
      → r.hears_message ≡ false
      → OnlySocket r (decoded buffered gen_des clean_dirty decode_utf8 other out r)
  unfolding decoded
  decoded_unheard (err e) r h = (r.sock, refl)
  decoded_unheard (ok sock) r h = elim (Bool-cases (not (ltb_ℤ (pos 0) (Websock.rq_len sock)))) [
    | inl e ↦ (sock, rw e refl)
    | inr e ↦ (Websock.compact sock, rw (e, h) refl)
  ]

  if_unheard : (b : Bool) (r r' : Rfb) → OnlySocket r r' → OnlySocket r (if b then r' else r)
  if_unheard true r r' h = h
  if_unheard false r r' h = (r.sock, refl)

  frame_unheard :
      (payload : List ℕ) (r : Rfb)
      → r.hears_message ≡ false
      → OnlySocket r (happen buffered gen_des clean_dirty decode_utf8 other (frame payload) r)
  unfolding happen receive
  frame_unheard payload r h =
      if_unheard r.receives r _ (decoded_unheard (Websock.decode_message payload r.sock) r h)

  opened_unheard :
      (protocol : Option Websock.Mode) (r : Rfb)
      → r.hears_open ≡ false
      → OnlySocket r (happen buffered gen_des clean_dirty decode_utf8 other (opened protocol) r)
  unfolding happen
  opened_unheard protocol r e = (
    Websock.on_open protocol r.sock,
    on_open_unheard (record r { sock = Websock.on_open protocol r.sock }) e,
  )

  -- After `disconnect` was called on a client, and whatever happened since, another `connect` included:
  -- when its socket opens and when a frame comes, nothing of the client changes but its socket, so that no
  -- state is entered, nothing is called and no timer is set. Encodings that are not modelled do what an
  -- `Effect` says.
  pub disconnect_from_deaf :
      (hs : List Happening) (protocol : Option Websock.Mode) (payload : List ℕ) (r : Rfb)
      → OnlySocket (run buffered gen_des clean_dirty decode_utf8 other hs (disconnect_from r)) (
          happen buffered gen_des clean_dirty decode_utf8 other
            (opened protocol)
            (run buffered gen_des clean_dirty decode_utf8 other hs (disconnect_from r)))
        × OnlySocket (run buffered gen_des clean_dirty decode_utf8 other hs (disconnect_from r)) (
            happen buffered gen_des clean_dirty decode_utf8 other
              (frame payload)
              (run buffered gen_des clean_dirty decode_utf8 other hs (disconnect_from r)))
  unfolding disconnect_from
  disconnect_from_deaf hs protocol payload r =
      let (o, m) = run_deaf hs (disconnect_from r) (refl, refl) in
      let r' = run buffered gen_des clean_dirty decode_utf8 other hs (disconnect_from r) in
      (opened_unheard protocol r' o, frame_unheard payload r' m)
