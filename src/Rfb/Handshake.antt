-- ===== src/Rfb/Handshake.antt =====
-- statics/include/rfb.js: the handshake, from the protocol version to the result of the authentication.
-- The code calls back into `_init_msg` where it goes on at once; here the step that it comes to is called.
use routercenter_old.Prelude.{
  ℕ, Bool, true, false, Option, none, some, List, [], ◌∷◌, ◌++◌, length, take, drop, ltb, leb, ◌==◌,
  if◌then◌else◌,
}
use routercenter_old.Prelude.Int.{ℤ, pos, ltb_ℤ}
use routercenter_old.Prelude.Text.{codes}
use routercenter_old.Prelude.Result.{ok}
use routercenter_old.Websock
use routercenter_old.Websock.{Websock}
use routercenter_old.Rfb.{
  password, security, authentication, security_result, client_initialisation, server_initialisation,
  flush_queue, password_required, Rfb, M, ◌>>=◌, ◌>>◌, pure, modify, call,
}
use routercenter_old.Rfb.Queue.{shift8, shift32, shift_bytes, shift_rest, shift_str, wait, send}
use routercenter_old.Rfb.Life.{set_timer, update_state, fail}
use routercenter_old.Rfb.Words.{
  same_text, ServerVersion, repeater, invalid, version_of, server_version, client_version,
  choose_type, capabilities, tunnel_zero, offers, rounds, is_number, times_16, is_above_0,
  as_number, split_at, join_with, padded,
}

abbrev pub give_up : M Bool
give_up r = (ok false, fail r)

-- The reason of a failed authentication. The length is read before there need be four bytes for it.
unfoldable pub failed_reason : M Bool
unfolding fail
failed_reason = do
  length' ← shift32
  short ← wait length' (pos 8)
  if short then pure false else do shift_str length'; give_up

-- `buffered`: what the browser's socket holds back; `gen_des`: the cipher of des.js, applied to the
-- password and the challenge.
module _ (buffered : Websock → ℕ) (gen_des : List ℕ → List (Option ℕ) → List ℕ) where
  -- The case 'ClientInitialisation' of `_init_msg`.
  unfoldable pub client_init : M Bool
  unfolding update_state send
  client_init r = (
    ok true,
    update_state server_initialisation (send buffered ((if r.shared then 1 else 0) ∷ []) r),
  )

  -- Without a password the page is asked for one, and the code goes on.
  unfoldable pub ask_password : Rfb → Rfb
  unfolding update_state
  ask_password r =
      if length r.rfb_password == 0 then call password_required (update_state password r) else r

  unfoldable pub answer_challenge : List (Option ℕ) → M Bool
  unfolding update_state send
  answer_challenge challenge r =
      (ok true, update_state security_result (send buffered (gen_des r.rfb_password challenge) r))

  unfoldable pub negotiate_std_vnc_auth : M Bool
  unfolding ask_password answer_challenge
  negotiate_std_vnc_auth = do
    modify ask_password
    short ← wait (some (pos 16)) (pos 0)
    if short then pure false else do challenge ← shift_bytes 16; answer_challenge challenge

  -- Only the tunnel of type 0 is known, and it must be no tunnel.
  unfoldable pub choose_tunnel : Option (List ℕ) → M Bool
  unfolding same_text send
  choose_tunnel none r = give_up r
  choose_tunnel (some name) r =
      if same_text name (codes "TGHTNOTUNNEL")
      then (ok false, send buffered (0 ∷ 0 ∷ 0 ∷ 0 ∷ []) r)
      else give_up r

  unfoldable pub negotiate_tight_tunnels : ℕ → M Bool
  unfolding capabilities tunnel_zero choose_tunnel
  negotiate_tight_tunnels num_tunnels = do
    caps ← capabilities num_tunnels 12
    choose_tunnel (tunnel_zero caps none)

  -- Of the two sub-types of the client the first that the server has.
  unfoldable pub choose_sub_auth : List (Option ℤ × List ℕ) → M Bool
  unfolding offers send update_state negotiate_std_vnc_auth
  choose_sub_auth caps r =
      if offers (codes "STDVNOAUTH__") caps
      then (ok true, update_state security_result (send buffered (0 ∷ 0 ∷ 0 ∷ 1 ∷ []) r))
      else if offers (codes "STDVVNCAUTH_") caps
      then negotiate_std_vnc_auth
          (record (send buffered (0 ∷ 0 ∷ 0 ∷ 2 ∷ []) r) { auth_scheme = some (pos 2) })
      else give_up r

  unfoldable pub negotiate_sub_auth : M Bool
  unfolding capabilities choose_sub_auth
  negotiate_sub_auth = do
    short ← wait (some (pos 4)) (pos 0)
    if short then pure false else do
      count ← shift32
      short' ← wait (times_16 count) (pos 4)
      if short' then pure false else do caps ← capabilities (rounds count) 12; choose_sub_auth caps

  unfoldable pub negotiate_tight_auth : M Bool
  unfolding negotiate_tight_tunnels negotiate_sub_auth
  negotiate_tight_auth r =
      if r.tightvnc
      then negotiate_sub_auth r
      else (do
        short ← wait (some (pos 4)) (pos 0)
        if short then pure false else do
          num_tunnels ← shift32
          short' ←
              if is_above_0 num_tunnels then wait (times_16 num_tunnels) (pos 4) else pure false
          if short' then pure false else do
            modify (λ s. record s { tightvnc = true })
            if is_above_0 num_tunnels
                then (do negotiate_tight_tunnels (rounds num_tunnels); pure false)
                else negotiate_sub_auth)
          r

  -- Case 22: the user, the target and the password stand in the password with separators.
  unfoldable pub say_xvp : List (List ℕ) → M Bool
  unfolding send update_state negotiate_std_vnc_auth
  say_xvp (user ∷ target ∷ word ∷ words) r =
      let said = length user ∷ length target ∷ (user ++ target) in
      let r' : Rfb = record (send buffered said r) {
        rfb_password = join_with r.xvp_password_sep word words;
        auth_scheme = some (pos 2);
      } in
      negotiate_std_vnc_auth r'
  say_xvp _ r = (ok false, call password_required (update_state password r))

  unfoldable pub negotiate_xvp_auth : M Bool
  unfolding split_at say_xvp
  negotiate_xvp_auth r = say_xvp (split_at r.xvp_password_sep r.rfb_password) r

  -- A reason that the server gives is read, and shown.
  unfoldable pub fail_with_reason : M Bool
  unfolding fail
  fail_with_reason = do strlen ← shift32; shift_str strlen; give_up

  unfoldable pub negotiate_authentication : M Bool
  unfolding fail_with_reason update_state client_init negotiate_xvp_auth negotiate_std_vnc_auth
      negotiate_tight_auth fail
  negotiate_authentication r =
      if is_number 0 r.auth_scheme
      then (do short ← wait (some (pos 4)) (pos 0); if short then pure false else fail_with_reason)
          r
      else if is_number 1 r.auth_scheme
      then (if leb 38 r.version
          then (ok true, update_state security_result r)
          else client_init (update_state client_initialisation r))
      else if is_number 22 r.auth_scheme
      then negotiate_xvp_auth r
      else if is_number 2 r.auth_scheme
      then negotiate_std_vnc_auth r
      else if is_number 16 r.auth_scheme
      then negotiate_tight_auth r
      else give_up r

  -- The type that is taken is sent, and its authentication begins.
  unfoldable pub take_type : ℕ → M Bool
  unfolding send update_state fail negotiate_authentication
  take_type chosen r =
      if chosen == 0
      then give_up (record r { auth_scheme = some (pos 0) })
      else let told = send buffered (chosen ∷ []) (record r { auth_scheme = some (pos chosen) }) in
        negotiate_authentication (update_state authentication told)

  -- The types; with no number of them, what is left in the queue.
  unfoldable pub shift_types : Option ℕ → M (List (Option ℕ))
  unfolding shift_bytes shift_rest
  shift_types none = shift_rest
  shift_types (some num) = shift_bytes num

  unfoldable pub negotiate_security : M Bool
  unfolding fail_with_reason shift_types choose_type take_type update_state negotiate_authentication
  negotiate_security r =
      if leb 37 r.version
      then (do
        num_types ← shift8
        short ← wait (as_number num_types) (pos 1)
        if short
            then pure false
            else if is_number 0 (as_number num_types)
            then fail_with_reason
            else do types ← shift_types num_types; take_type (choose_type 0 types))
          r
      else (do
        short ← wait (some (pos 4)) (pos 0)
        if short then pure false else do
          scheme ← shift32
          λ s.
              negotiate_authentication
                (update_state authentication (record s { auth_scheme = scheme })))
          r

  -- A result that is none of the three has no effect.
  unfoldable pub act_on_result : Option ℤ → M Bool
  unfolding update_state client_init fail
  act_on_result result r =
      if is_number 0 result
      then client_init (update_state client_initialisation r)
      else if is_number 1 result
      then (if leb 38 r.version then failed_reason r else give_up r)
      else if is_number 2 result
      then give_up r
      else (ok false, r)

  unfoldable pub handle_security_result : M Bool
  unfolding act_on_result
  handle_security_result = do
    short ← wait (some (pos 4)) (pos 0)
    if short then pure false else do result ← shift32; act_on_result result

  unfoldable pub answer_version : ServerVersion → M Bool
  unfolding client_version set_timer send update_state fail
  answer_version invalid r = give_up r
  answer_version repeater r = (ok true, send buffered (padded 250 r.repeater_id) r)
  answer_version (version_of v) r =
      let v' = if ltb r.max_version v then r.max_version else v in
      let timed : Rfb = record (set_timer flush_queue r) {
        version = v';
        send_timer = some r.next_timer;
      } in
      (ok false, update_state security (send buffered (client_version v') timed))

  unfoldable pub negotiate_protocol_version : M Bool
  unfolding server_version answer_version fail
  negotiate_protocol_version r =
      if ltb_ℤ (Websock.rq_len r.sock) (pos 12)
      then give_up r
      else (do
        text ← shift_str (some (pos 12))
        answer_version (server_version (take 7 (drop 4 text))))
          r
