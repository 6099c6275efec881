-- ===== src/Rfb/Session.antt =====
-- statics/include/rfb.js: the initialisation by the server, the messages of a running session, and the
-- events that drive the client: frames, timers, keys and the mouse.
pub mod Events
use routercenter_old.Prelude.{
  ℕ, zero, suc, ◌+◌, ◌-◌, ◌*◌, ◌/◌, Bool, true, false, not, ◌&&◌, ◌||◌, Option, none, some, List,
  [], ◌∷◌, ◌++◌, length, ltb, leb, ◌==◌, if◌then◌else◌,
}
use routercenter_old.Prelude.Int.{ℤ, pos, negsuc, ◌+ℤ◌, ◌*ℤ◌, ltb_ℤ}
use routercenter_old.Prelude.Text.{codes}
use routercenter_old.Prelude.Result.{Result, ok, err}
use routercenter_old.Websock
use routercenter_old.Websock.{Websock}
use routercenter_old.Rfb.{
  State, disconnected, failed, normal, protocol_version, security, authentication, security_result,
  client_initialisation, server_initialisation, more_messages, grabbed, belled, clipboard,
  desktop_name, xvp_initialised, true_colour, resized, colour_map, Call, Rfb, M, ◌>>=◌, ◌>>◌, pure,
  modify, call,
}
use routercenter_old.Rfb.Messages.{
  EncodingName, cursor, tight, other, CleanDirty, pixel_format, client_encodings,
  fb_update_requests,
}
use routercenter_old.Rfb.Queue.{shift8, shift16, shift32, shift_str, skip8, skip_bytes, wait, send}
use routercenter_old.Rfb.Life.{set_timer, update_state, fail, is_normal}
use routercenter_old.Rfb.Words.{same_text, rounds, is_number, as_number}
use routercenter_old.Rfb.Handshake.{
  negotiate_protocol_version, negotiate_security, negotiate_authentication, handle_security_result,
  client_init,
}
use routercenter_old.Rfb.Updates.{Effect, framebuffer_update}

-- `_encodings`
abbrev pub supported : List (EncodingName × ℤ)
supported =
    (other, pos 1)
    ∷ (tight, pos 7)
    ∷ (other, negsuc 259)
    ∷ (other, pos 5)
    ∷ (other, pos 2)
    ∷ (other, pos 0)
    ∷ (other, negsuc 222)
    ∷ (cursor, negsuc 238)
    ∷ (other, negsuc 25)
    ∷ (other, negsuc 246)
    ∷ (other, negsuc 223)
    ∷ (other, negsuc 308)
    ∷ (other, negsuc 307)
    ∷ []

-- What is not a number stands for 0 in the bits of a message.
abbrev pub in_bits : Option ℤ → ℤ
in_bits none = pos 0
in_bits (some v) = v

abbrev pub plus : ℤ → Option ℤ → Option ℤ
plus n none = none
plus n (some m) = some (n +ℤ m)

abbrev pub times : ℕ → Option ℤ → Option ℤ
times k none = none
times k (some n) = some (pos k *ℤ n)

abbrev pub add : Option ℤ → Option ℤ → Option ℤ
add none n = none
add (some m) n = plus m n

-- Where to go back to: a position that is not a number is not gone back to.
abbrev pub back : Option ℤ → ℤ
back none = pos 0
back (some n) = n

-- Strings of 16 chars that are read and not used.
unfoldable pub skip_strings : ℕ → M (Unit {0})
unfolding shift_str
skip_strings zero = pure tt
skip_strings (suc n) = do shift_str (some (pos 16)); skip_strings n

-- The extension of the server's initialisation under TightVNC; true if it has all come.
unfoldable pub tight_init : Option ℤ → M Bool
unfolding wait shift16 skip_bytes skip_strings
tight_init name_length = do
  short ← wait (some (pos 8)) (back (plus (pos 24) name_length))
  if short then pure false else do
    servers ← shift16
    clients ← shift16
    encodings ← shift16
    skip_bytes 2
    short' ←
        wait (times 16 (add (add servers clients) encodings)) (back (plus (pos 32) name_length))
    if short' then pure false else do
      skip_strings (rounds servers)
      skip_strings (rounds clients)
      skip_strings (rounds encodings)
      pure true

-- The pixel format of the server is read, and only logged.
unfoldable pub read_screen : M (Unit {0})
unfolding shift8 shift16 skip_bytes
read_screen = do
  width ← shift16
  modify (λ r. record r { fb_width = width })
  height ← shift16
  modify (λ r. record r { fb_height = height })
  skip_bytes 13
  skip_bytes 3

unfoldable pub set_colour_mode : Rfb → Rfb
unfolding same_text
set_colour_mode r =
    let true_color =
      if same_text r.fb_name (codes "Intel(r) AMT KVM") then false else r.true_color in
    record r {
      true_color = true_color;
      fb_bpp = if true_color then 4 else 1;
      fb_depth = if true_color then 3 else 1;
    }

-- `clean_dirty` is what `getCleanDirtyReset` of the display answers, after the calls made to it;
-- `decode_utf8` is the browser's decoding, which may throw.
module _ (buffered : Websock → ℕ) (gen_des : List ℕ → List (Option ℕ) → List ℕ)
    (clean_dirty : List Call → CleanDirty) (decode_utf8 : List ℕ → Result (List ℕ))
    (rest_of_encodings : ℤ → Rfb → Effect) where
  unfoldable pub requests : Rfb → List ℕ
  requests r = fb_update_requests (clean_dirty r.calls) (in_bits r.fb_width) (in_bits r.fb_height)

  unfoldable pub check_events : Rfb → Rfb
  unfolding send
  check_events r =
      if is_normal r.rfb_state && not r.viewport_dragging && ltb 0 (length r.mouse_arr)
      then record (send buffered r.mouse_arr r) { mouse_arr = [] }
      else r

  -- Past the point where the code could go back: the page and the server are told.
  unfoldable pub announce : Rfb → Rfb
  unfolding set_colour_mode requests send check_events
  announce r =
      let r' = set_colour_mode (call (desktop_name r.fb_name) r) in
      let shown =
        call grabbed
          (call (resized r'.fb_width r'.fb_height) (call (true_colour r'.true_color) r')) in
      let response =
        pixel_format shown.fb_bpp shown.fb_depth shown.true_color
        ++ (client_encodings supported shown.local_cursor shown.true_color ++ requests shown) in
      check_events (send buffered response shown)

  unfoldable pub set_name : Result (List ℕ) → M (Unit {0})
  set_name (err e) r = (err e, r)
  set_name (ok name) r = (ok tt, record r { fb_name = name })

  unfoldable pub negotiate_server_init : M Bool
  unfolding set_name wait read_screen shift32 shift_str tight_init announce update_state
  negotiate_server_init = do
    short ← wait (some (pos 24)) (pos 0)
    if short then pure false else do
      read_screen
      name_length ← shift32
      short' ← wait name_length (pos 24)
      if short' then pure false else do
        text ← shift_str name_length
        set_name (decode_utf8 text)
        all ← (λ r. if r.tightvnc then tight_init name_length r else (ok true, r))
        if not all
            then pure false
            else do modify (λ r. update_state normal (announce r)); pure false

  -- `_init_msg`; a state that has no case does nothing.
  unfoldable pub init_step : State → M Bool
  unfolding negotiate_protocol_version negotiate_security negotiate_authentication
      handle_security_result client_init negotiate_server_init
  init_step protocol_version = negotiate_protocol_version buffered gen_des
  init_step security = negotiate_security buffered gen_des
  init_step authentication = negotiate_authentication buffered gen_des
  init_step security_result = handle_security_result buffered gen_des
  init_step client_initialisation = client_init buffered gen_des
  init_step server_initialisation = negotiate_server_init
  init_step _ = pure false

  unfoldable pub init_msg : M Bool
  unfolding init_step
  init_msg r = init_step r.rfb_state r

  -- `parseInt(v / 256, 10)`
  unfoldable pub upper_byte : Option ℤ → Option ℤ
  upper_byte none = none
  upper_byte (some (pos n)) = some (pos (n / 256))
  upper_byte (some (negsuc n)) = some (negsuc n)

  unfoldable pub set_colours : ℕ → Option ℤ → ℕ → M (Unit {0})
  unfolding shift16 upper_byte
  set_colours zero first c = pure tt
  set_colours (suc n) first c = do
    red ← shift16
    green ← shift16
    blue ← shift16
    modify (call (colour_map (upper_byte blue ∷ upper_byte green ∷ upper_byte red ∷ []) first c))
    set_colours n first (c + 1)

  -- The four bytes of the header are read whether or not they have come.
  unfoldable pub handle_set_colour_map_msg : M Bool
  unfolding skip8 shift16 wait set_colours
  handle_set_colour_map_msg = do
    skip8
    first_colour ← shift16
    num_colours ← shift16
    short ← wait (times 6 num_colours) (pos 6)
    if short then pure false else do set_colours (rounds num_colours) first_colour 0; pure true

  unfoldable pub handle_server_cut_text : M Bool
  unfolding wait skip_bytes shift32 shift_str
  handle_server_cut_text = do
    short ← wait (some (pos 7)) (pos 1)
    if short then pure false else do
      skip_bytes 3
      length' ← shift32
      short' ← wait length' (pos 8)
      if short'
          then pure false
          else do text ← shift_str length'; modify (call (clipboard text)); pure true

  unfoldable pub act_on_xvp : Option ℕ → Option ℤ → Rfb → Rfb
  unfolding update_state fail
  act_on_xvp xvp_ver xvp_msg r =
      if is_number 0 xvp_msg
      then update_state r.rfb_state r
      else if is_number 1 xvp_msg
      then call (xvp_initialised xvp_ver) (record r { xvp_ver = xvp_ver })
      else fail r

  unfoldable pub handle_xvp_msg : M Bool
  unfolding wait skip8 shift8 act_on_xvp
  handle_xvp_msg = do
    short ← wait (some (pos 3)) (pos 1)
    if short then pure false else do
      skip8
      xvp_ver ← shift8
      xvp_msg ← shift8
      modify (act_on_xvp xvp_ver (as_number xvp_msg))
      pure true

  unfoldable pub update_and_request : M Bool
  unfolding framebuffer_update requests send
  update_and_request = do
    done ← framebuffer_update rest_of_encodings
    if done then (λ r. (ok true, send buffered (requests r) r)) else pure false

  -- The handler of a message's type.
  unfoldable pub dispatch : Option ℤ → M Bool
  unfolding update_and_request handle_set_colour_map_msg handle_server_cut_text handle_xvp_msg fail
  dispatch type r =
      if is_number 0 type
      then update_and_request r
      else if is_number 1 type
      then handle_set_colour_map_msg r
      else if is_number 2 type
      then (ok true, call belled r)
      else if is_number 3 type
      then handle_server_cut_text r
      else if is_number 250 type
      then handle_xvp_msg r
      else (ok true, fail r)

  unfoldable pub normal_msg : M Bool
  unfolding shift8 dispatch
  normal_msg r =
      if ltb 0 r.fbu.rects
      then dispatch (some (pos 0)) r
      else (do type ← shift8; dispatch (as_number type)) r

  -- With more to do, a timer is set, unless one is.
  unfoldable pub more_later : Rfb → Rfb
  unfolding set_timer
  more_later r = elim r.msg_timer [
    | none ↦ record (set_timer more_messages r) { msg_timer = some r.next_timer }
    | some id ↦ r
  ]

  unfoldable pub handle_normal : M (Unit {0})
  unfolding normal_msg more_later
  handle_normal = do
    done ← normal_msg
    modify (λ r. if done && ltb_ℤ (pos 0) (Websock.rq_len r.sock) then more_later r else r)

  unfoldable pub message_step : State → M (Unit {0})
  unfolding handle_normal init_msg
  message_step disconnected = pure tt
  message_step failed = pure tt
  message_step normal = handle_normal
  message_step _ = do init_msg; pure tt

  unfoldable pub handle_message : M (Unit {0})
  unfolding message_step
  handle_message r =
      if is_number 0 (some (Websock.rq_len r.sock)) then (ok tt, r) else message_step r.rfb_state r
