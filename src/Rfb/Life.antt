-- ===== src/Rfb/Life.antt =====
-- statics/include/rfb.js: the states of a connection, the timers, and the events of the socket that change
-- them. `ungrabbed` stands for the calls of `ungrab`; the keyups that these may cause come back as
-- events of the keyboard.
use routercenter_old.Prelude.{
  ℕ, ◌+◌, Bool, true, false, not, ◌&&◌, ◌||◌, Option, none, some, List, [], ◌∷◌, ◌++◌, ◌==◌,
  if◌then◌else◌,
}
use routercenter_old.Prelude.Int.{pos}
use routercenter_old.Websock
use routercenter_old.Rfb.{
  State, disconnected, loaded, connect, disconnect, failed, fatal, normal, protocol_version,
  authentication, Task, disconnect_timeout, to_disconnected, retry_init, state_changed, sock_opened,
  sock_closed, ungrabbed, default_cursor, display_cleared, Rfb, call,
}

abbrev pub is_failed : State → Bool
is_failed failed = true
is_failed _ = false

abbrev pub is_disconnected : State → Bool
is_disconnected disconnected = true
is_disconnected _ = false

abbrev pub is_disconnect : State → Bool
is_disconnect disconnect = true
is_disconnect _ = false

abbrev pub is_connect : State → Bool
is_connect connect = true
is_connect _ = false

abbrev pub is_loaded : State → Bool
is_loaded loaded = true
is_loaded _ = false

abbrev pub is_normal : State → Bool
is_normal normal = true
is_normal _ = false

-- The disconnected states, in which the socket is closed.
unfoldable pub closes : State → Bool
closes disconnected = true
closes loaded = true
closes connect = true
closes disconnect = true
closes failed = true
closes fatal = true
closes _ = false

-- `clearTimeout` and `clearInterval`
unfoldable pub clear_timer : ℕ → List (ℕ × Task) → List (ℕ × Task)
clear_timer id [] = []
clear_timer id ((n, task) ∷ timers) =
    let rest = clear_timer id timers in if n == id then rest else (n, task) ∷ rest

-- `setTimeout` and `setInterval`: the number of the timer is the old `next_timer`.
unfoldable pub set_timer : Task → Rfb → Rfb
set_timer task r = record r {
  timers = r.timers ++ (r.next_timer, task) ∷ [];
  next_timer = r.next_timer + 1;
}

abbrev stop : Option ℕ → List (ℕ × Task) → List (ℕ × Task)
stop none timers = timers
stop (some id) timers = clear_timer id timers

unfoldable pub cleanup_display : State → Rfb → Rfb
cleanup_display s r =
    let cursor = if is_connect s || is_loaded s then [] else default_cursor ∷ [] in
    let logo = if not r.debug_logging || is_loaded s then display_cleared ∷ [] else [] in
    record r { calls = r.calls ++ ungrabbed ∷ (cursor ++ logo) }

-- `close` of websock.js takes the socket's handler of frames off, `open` puts it on a new one.
unfoldable pub cleanup_socket : State → Rfb → Rfb
unfolding clear_timer cleanup_display
cleanup_socket s r =
    let r' : Rfb = record r {
      timers = stop r.msg_timer (stop r.send_timer r.timers);
      send_timer = none;
      msg_timer = none;
    } in
    record (call sock_closed (cleanup_display s r')) { receives = false }

-- The socket's queues and the state of one connection are reset.
unfoldable pub init_vars : Rfb → Rfb
init_vars r = record r {
  sock = Websock.init r.sock;
  fbu = record r.fbu { rects = 0; subrects = pos 0; lines = 0; tiles = 0 };
  mouse_button_mask = 0;
  mouse_arr = [];
  tightvnc = false;
}

-- What a state does when it is entered. The 50 ms timer of 'failed' takes it to 'disconnected'.
unfoldable pub enter : State → Rfb → Rfb
unfolding set_timer init_vars
enter connect r = record (call sock_opened (init_vars r)) { receives = true }
enter disconnect r = record (set_timer disconnect_timeout r) { disconn_timer = some r.next_timer }
enter failed r = set_timer to_disconnected r
enter _ r = r

-- The timer of 'disconnect' is stopped by the next other state, which also stops hearing 'close'.
unfoldable pub stop_disconnecting : Rfb → Rfb
unfolding clear_timer
stop_disconnecting r = if is_disconnect r.rfb_state then r else elim r.disconn_timer [
  | none ↦ r
  | some id ↦ record r {
    timers = clear_timer id r.timers;
    disconn_timer = none;
    hears_close = false;
  }
]

-- From 'failed' to 'disconnected' the actions of 'disconnected' are taken, but the state stays.
unfoldable pub update_state : State → Rfb → Rfb
unfolding closes cleanup_socket enter stop_disconnecting
update_state s r =
    let cleaned = if closes s then cleanup_socket s r else r in
    let s' = if is_failed r.rfb_state && is_disconnected s then failed else s in
    let moved = stop_disconnecting (record cleaned { rfb_state = s' }) in
    call (state_changed s r.rfb_state) (enter s moved)

unfoldable pub fail : Rfb → Rfb
unfolding update_state
fail r = update_state failed r

-- `connect(host, port, password, path)`: the path is not used.
unfoldable pub connect_to : List ℕ → ℕ → List ℕ → Rfb → Rfb
unfolding update_state fail
connect_to host port passwd r =
    let r' : Rfb = record r { host = host; port = port; rfb_password = passwd } in
    elim host [ [] ↦ fail r' | c ∷ cs ↦ if port == 0 then fail r' else update_state connect r' ]

-- `disconnect()`: the handlers are taken off for good.
unfoldable pub disconnect_from : Rfb → Rfb
unfolding update_state
disconnect_from r = record (update_state disconnect r) {
  hears_error = false;
  hears_message = false;
  hears_open = false;
}

-- `sendPassword(passwd)`
unfoldable pub send_password : List ℕ → Rfb → Rfb
unfolding set_timer
send_password passwd r =
    set_timer retry_init (record r { rfb_password = passwd; rfb_state = authentication })

-- The socket's events; after the first 'close' no other is heard.
unfoldable pub on_open : Rfb → Rfb
unfolding update_state fail
on_open r =
    if not r.hears_open
    then r
    else if is_connect r.rfb_state
    then update_state protocol_version r
    else fail r

unfoldable pub closed_by_server : State → Rfb → Rfb
unfolding update_state fail
closed_by_server disconnect r = update_state disconnected r
closed_by_server failed r = r
closed_by_server disconnected r = r
closed_by_server _ r = fail r

unfoldable pub on_close : Rfb → Rfb
unfolding closed_by_server
on_close r =
    if not r.hears_close then r else record (closed_by_server r.rfb_state r) { hears_close = false }
