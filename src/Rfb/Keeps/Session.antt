-- ===== src/Rfb/Keeps/Session.antt =====
-- What is kept by the initialisation by the server and by the messages of a running session.
use routercenter_old.Prelude.{
  ℕ, zero, suc, ◌+◌, ◌*◌, ◌≡◌, Bool, true, false, not, ◌&&◌, Option, none, some, List, [], ◌++◌,
  length, ltb, ◌==◌,
}
use routercenter_old.Prelude.Int.{ℤ, pos, negsuc, ltb_ℤ, pos_part}
use routercenter_old.Prelude.Result.{Result, ok, err}
use routercenter_old.Websock
use routercenter_old.Websock.{Websock}
use routercenter_old.Rfb.{
  State, failed, normal, more_messages, Call, fbu_received, xvp_initialised, belled, Fbu, Rfb,
  modify, call,
}
use routercenter_old.Rfb.Messages.{CleanDirty}
use routercenter_old.Rfb.Queue.{skip8, skip_bytes, send}
use routercenter_old.Rfb.Life.{update_state, fail, set_timer, is_normal}
use routercenter_old.Rfb.Words.{is_number, as_number, rounds}
use routercenter_old.Rfb.Updates.{
  Effect, whole_lines, draw_lines, draw_some, raw_lines, raw, copy_rect, is_zero, rre_subrect,
  rre_loop, rre_header, rre_rest, rre, rect_header, has_name, begin_rect, start_rect, take_effect,
  handle_other, decode_rect, update_round, update_loop, begin_update, framebuffer_update,
  rounds_for,
}
use routercenter_old.Rfb.Session.{
  skip_strings, tight_init, read_screen, set_colour_mode, check_events, announce, set_name,
  negotiate_server_init, set_colours, handle_set_colour_map_msg, handle_server_cut_text, act_on_xvp,
  handle_xvp_msg, update_and_request, dispatch, normal_msg, more_later, handle_normal, times, add,
  plus, back,
}
use routercenter_old.Rfb.Keeps.Hextile.{hextile-Keeps}
use routercenter_old.Rfb.Keeps.{
  P, Keeps, in_turn, either_way, wait-Keeps, shift_str-Keeps, if_after, if_state, shift8-Keeps,
  shift16-Keeps, shift32-Keeps, shift_bytes-Keeps, waits_keep,
}

module _ {κ} (Q : State → Bool → Bool → Type κ) where
  loop_after {ℓ} :
      {A : Type ℓ} (b : Bool) (x y : Result A × Rfb)
      → P Q x.1
      → P Q y.1
      → P Q (elim b as (λ _. Result A × Rfb) [ true ↦ x | false ↦ y ]).1
  loop_after true x y p q = p
  loop_after false x y p q = q

  skip_bytes-Keeps : (n : ℕ) → Keeps Q (skip_bytes n)
  unfolding skip_bytes
  skip_bytes-Keeps n r p = p

  skip8-Keeps : Keeps Q skip8
  unfolding skip8
  skip8-Keeps r p = p

  draw_some-Keeps : (n : Option ℕ) → Keeps Q (draw_some n)
  unfolding draw_some draw_lines
  draw_some-Keeps none r p = p
  draw_some-Keeps (some n) r p = p

  raw-Keeps : Keeps Q raw
  unfolding raw raw_lines
  raw-Keeps =
      in_turn Q _ _ (λ r p. p)
        (λ u.
          in_turn Q _ _ (λ r p. p)
            (λ u.
              in_turn Q _ _ (λ r. wait-Keeps Q (some (pos r.fbu.bytes)) (pos 0) r)
                (λ short.
                  either_way Q short _ _ (λ r p. p)
                    (λ r.
                      draw_some-Keeps
                        (whole_lines r.fbu.lines (pos_part (Websock.rq_len r.sock))
                          (r.fbu.width * r.fb_bpp))
                        r))))

  copy_rect-Keeps : Keeps Q copy_rect
  unfolding copy_rect
  copy_rect-Keeps =
      in_turn Q _ _ (λ r p. p)
        (λ u. waits_keep Q (some (pos 4)) (pos 0) _ (
          in_turn Q _ _ (shift16-Keeps Q) (λ x.
            in_turn Q _ _ (shift16-Keeps Q)
              (λ y. in_turn Q _ _ (λ r p. p) (λ u. in_turn Q _ _ (λ r p. p) (λ u r p. p))))))

  rre_subrect-Keeps : Keeps Q rre_subrect
  unfolding rre_subrect
  rre_subrect-Keeps =
      in_turn Q _ _ (λ r. shift_bytes-Keeps Q r.fb_bpp r)
        (λ c. in_turn Q _ _ (shift16-Keeps Q) (λ x. in_turn Q _ _ (shift16-Keeps Q) (λ y.
          in_turn Q _ _ (shift16-Keeps Q)
            (λ w. in_turn Q _ _ (shift16-Keeps Q) (λ h. in_turn Q _ _ (λ r p. p) (λ u r p. p))))))

  rre_loop-Keeps : (f : ℕ) → Keeps Q (rre_loop f)
  unfolding rre_loop
  rre_loop-Keeps zero r p = p
  rre_loop-Keeps (suc f) r p =
      loop_after
        (ltb_ℤ (pos 0) r.fbu.subrects && not (ltb_ℤ (Websock.rq_len r.sock) (pos (r.fb_bpp + 8)))) _
        _ (in_turn Q _ _ rre_subrect-Keeps (λ u. rre_loop-Keeps f) r p) p

  rre_header-Keeps : Keeps Q rre_header
  unfolding rre_header
  rre_header-Keeps =
      in_turn Q _ _ (λ r p. p)
        (λ u.
          in_turn Q _ _ (λ r. wait-Keeps Q (some (pos (4 + r.fb_bpp))) (pos 0) r)
            (λ short.
              either_way Q short _ _ (λ r p. p)
                (in_turn Q _ _ (shift32-Keeps Q) (λ n.
                  in_turn Q _ _ (λ r. shift_bytes-Keeps Q r.fb_bpp r)
                    (λ c. in_turn Q _ _ (λ r p. p) (λ u. in_turn Q _ _ (λ r p. p) (λ u r p. p)))))))

  rre_rest-Keeps : (r : Rfb) → P Q r → P Q (rre_rest r)
  unfolding rre_rest
  rre_rest-Keeps r p = if_state Q (ltb_ℤ (pos 0) r.fbu.subrects) _ _ p p

  rre-Keeps : Keeps Q rre
  unfolding rre
  rre-Keeps =
      in_turn Q _ _ (λ r p. if_after Q (is_zero r.fbu.subrects) _ _ (rre_header-Keeps r p) p)
        (λ ready.
          either_way Q (not ready) _ _ (λ r p. p)
            (in_turn Q _ _ (λ r. rre_loop-Keeps (pos_part r.fbu.subrects) r)
              (λ u. in_turn Q (modify rre_rest) _ rre_rest-Keeps (λ u r p. p))))

  module _ (allowed : State → Bool)
      (moves : (s : State) → allowed s ≡ true → (r : Rfb) → P Q r → P Q (update_state s r)) where
    module _ (buffered : Websock → ℕ) (gen_des : List ℕ → List (Option ℕ) → List ℕ)
        (clean_dirty : List Call → CleanDirty) (decode_utf8 : List ℕ → Result (List ℕ))
        (other : ℤ → Rfb → Effect) (fails : allowed failed ≡ true) where
      take_effect-Keeps : (e : Effect) → Keeps Q (take_effect e)
      unfolding take_effect fail
      take_effect-Keeps e r p =
          let r' : Rfb = record r {
            sock = e.sock;
            fbu = e.fbu;
            fb_width = e.fb_width;
            fb_height = e.fb_height;
            calls = r.calls ++ e.calls;
          } in
          if_state Q e.fails (fail r') r' (moves failed fails r' p) p

      fail-Keeps : (r : Rfb) → P Q r → P Q (fail r)
      unfolding fail
      fail-Keeps r p = moves failed fails r p

      others : (n : ℤ) → Keeps Q (handle_other other n)
      unfolding handle_other
      others n r p = take_effect-Keeps (other n r) r p

      begin_rect-Keeps : (u : Option Fbu) → Keeps Q (begin_rect u)
      unfolding begin_rect fail
      begin_rect-Keeps none r p = p
      begin_rect-Keeps (some u) r p =
          let r' : Rfb =
            call (fbu_received u.x u.y u.width u.height u.encoding) (record r { fbu = u }) in
          if_after Q (has_name u.encoding) (ok true, r') (ok false, fail r') p
            (moves failed fails r' p)

      start_rect-Keeps : Keeps Q start_rect
      unfolding start_rect
      start_rect-Keeps = waits_keep Q (some (pos 12)) (pos 0) _ (
          in_turn Q _ _ (shift_bytes-Keeps Q 12)
            (λ hdr r. begin_rect-Keeps (rect_header hdr r.fbu) r))

      decode_rect-Keeps : (n : ℤ) → Keeps Q (decode_rect other n)
      unfolding decode_rect
      decode_rect-Keeps (pos n) = either_way Q (n == 0) _ _ raw-Keeps (
          either_way Q (n == 1) _ _ copy_rect-Keeps (
            either_way Q (n == 2) _ _ rre-Keeps (
              either_way Q (n == 5) _ _ (hextile-Keeps Q (λ r p. fail-Keeps r p))
                (others (pos n)))))
      decode_rect-Keeps (negsuc n) = others (negsuc n)

      update_round-Keeps : Keeps Q (update_round other)
      unfolding update_round
      update_round-Keeps =
          in_turn Q _ _ (λ r. wait-Keeps Q (some (pos r.fbu.bytes)) (pos 0) r)
            (λ short.
              either_way Q short _ _ (λ r p. p)
                (in_turn Q _ _ (λ r p. if_after Q (r.fbu.bytes == 0) _ _ (start_rect-Keeps r p) p)
                  (λ ready.
                    either_way Q ready _ _ (λ r. decode_rect-Keeps r.fbu.encoding r) (λ r p. p))))

      update_loop-Keeps : (f : ℕ) → Keeps Q (update_loop other f)
      unfolding update_loop
      update_loop-Keeps zero r p = p
      update_loop-Keeps (suc f) r p =
          loop_after (ltb 0 r.fbu.rects) _ _
            (loop_after (is_normal r.rfb_state) _ _
              (in_turn Q _ _ update_round-Keeps
                (elim [ true ↦ update_loop-Keeps f | false ↦ λ r p. p ]) r p)
              p)
            p

      begin_update-Keeps : Keeps Q (begin_update other)
      unfolding begin_update
      begin_update-Keeps = waits_keep Q (some (pos 3)) (pos 1) _ (
          in_turn Q _ _ (skip8-Keeps)
            (λ u. in_turn Q _ _ (shift16-Keeps Q) (λ n. in_turn Q _ _ (λ r p. p) (λ u r p. p))))

      framebuffer_update-Keeps : Keeps Q (framebuffer_update other)
      unfolding framebuffer_update
      framebuffer_update-Keeps =
          in_turn Q _ _ (λ r p. if_after Q (r.fbu.rects == 0) _ _ (begin_update-Keeps r p) p)
            (λ ready.
              either_way Q (not ready) _ _ (λ r p. p)
                (in_turn Q _ _ (λ r. update_loop-Keeps (rounds_for other r) r)
                  (λ done.
                    either_way Q (not done) _ _ (λ r p. p)
                      (in_turn Q _ _ (λ r p. p) (λ u r p. p)))))

      act_on_xvp-Keeps :
          ((r : Rfb) → P Q r → P Q (update_state r.rfb_state r))
          → (ver : Option ℕ) (msg : Option ℤ) (r : Rfb) → P Q r
          → P Q (act_on_xvp buffered gen_des clean_dirty decode_utf8 other ver msg r)
      unfolding act_on_xvp fail
      act_on_xvp-Keeps stays ver msg r p = if_state Q (is_number 0 msg) _ _ (stays r p) (
          if_state Q (is_number 1 msg) (call (xvp_initialised ver) (record r { xvp_ver = ver })) _ p
            (moves failed fails r p))

      handle_xvp_msg-Keeps :
          ((r : Rfb) → P Q r → P Q (update_state r.rfb_state r))
          → Keeps Q (handle_xvp_msg buffered gen_des clean_dirty decode_utf8 other)
      unfolding handle_xvp_msg
      handle_xvp_msg-Keeps stays = waits_keep Q (some (pos 3)) (pos 1) _ (
          in_turn Q _ _ skip8-Keeps (λ u. in_turn Q _ _ (shift8-Keeps Q) (λ ver.
            in_turn Q _ _ (shift8-Keeps Q) (λ msg.
              in_turn Q
                (modify
                  (act_on_xvp buffered gen_des clean_dirty decode_utf8 other ver (as_number msg)))
                _ (act_on_xvp-Keeps stays ver (as_number msg)) (λ u r p. p)))))

      set_colours-Keeps :
          (n : ℕ) (first : Option ℤ) (c : ℕ)
          → Keeps Q (set_colours buffered gen_des clean_dirty decode_utf8 other n first c)
      unfolding set_colours
      set_colours-Keeps zero first c = λ r p. p
      set_colours-Keeps (suc n) first c = in_turn Q _ _ (shift16-Keeps Q) (λ red.
          in_turn Q _ _ (shift16-Keeps Q) (λ green.
            in_turn Q _ _ (shift16-Keeps Q)
              (λ blue. in_turn Q _ _ (λ r p. p) (λ u. set_colours-Keeps n first (c + 1)))))

      handle_set_colour_map_msg-Keeps :
          Keeps Q (handle_set_colour_map_msg buffered gen_des clean_dirty decode_utf8 other)
      unfolding handle_set_colour_map_msg
      handle_set_colour_map_msg-Keeps = in_turn Q _ _ skip8-Keeps (λ u.
          in_turn Q _ _ (shift16-Keeps Q) (λ first. in_turn Q _ _ (shift16-Keeps Q) (λ n.
            waits_keep Q (times 6 n) (pos 6) _
              (in_turn Q _ _ (set_colours-Keeps (rounds n) first 0) (λ u r p. p)))))

      handle_server_cut_text-Keeps :
          Keeps Q (handle_server_cut_text buffered gen_des clean_dirty decode_utf8 other)
      unfolding handle_server_cut_text
      handle_server_cut_text-Keeps = waits_keep Q (some (pos 7)) (pos 1) _ (
          in_turn Q _ _ (skip_bytes-Keeps 3) (λ u. in_turn Q _ _ (shift32-Keeps Q) (λ n.
            waits_keep Q n (pos 8) _ (
              in_turn Q _ _ (shift_str-Keeps Q n)
                (λ text. in_turn Q _ _ (λ r p. p) (λ u r p. p))))))

      update_and_request-Keeps :
          Keeps Q (update_and_request buffered gen_des clean_dirty decode_utf8 other)
      unfolding update_and_request send
      update_and_request-Keeps =
          in_turn Q _ _ framebuffer_update-Keeps (elim [ true ↦ λ r p. p | false ↦ λ r p. p ])

      dispatch-Keeps :
          ((r : Rfb) → P Q r → P Q (update_state r.rfb_state r))
          → (type : Option ℤ)
          → Keeps Q (dispatch buffered gen_des clean_dirty decode_utf8 other type)
      unfolding dispatch fail
      dispatch-Keeps stays type r p =
          if_after Q (is_number 0 type) _ _ (update_and_request-Keeps r p) (
            if_after Q (is_number 1 type) _ _ (handle_set_colour_map_msg-Keeps r p) (
              if_after Q (is_number 2 type) (ok true, call belled r) _ p
                (if_after Q (is_number 3 type) _ _ (handle_server_cut_text-Keeps r p) (
                  if_after Q (is_number 250 type) _ _ (handle_xvp_msg-Keeps stays r p)
                    (moves failed fails r p)))))

      normal_msg-Keeps :
          ((r : Rfb) → P Q r → P Q (update_state r.rfb_state r))
          → Keeps Q (normal_msg buffered gen_des clean_dirty decode_utf8 other)
      unfolding normal_msg
      normal_msg-Keeps stays r p =
          if_after Q (ltb 0 r.fbu.rects) _ _ (dispatch-Keeps stays (some (pos 0)) r p)
            (in_turn Q _ _ (shift8-Keeps Q) (λ type. dispatch-Keeps stays (as_number type)) r p)

      more_later-Keeps :
          (r : Rfb) → P Q r → P Q (more_later buffered gen_des clean_dirty decode_utf8 other r)
      unfolding more_later set_timer
      more_later-Keeps r p =
          elim r.msg_timer
            as (λ t. P Q (elim t as (λ _. Rfb) [
              | none ↦ record (set_timer more_messages r) { msg_timer = some r.next_timer }
              | some id ↦ r
            ])) [ none ↦ p | some id ↦ p ]

      pub handle_normal-Keeps :
          ((r : Rfb) → P Q r → P Q (update_state r.rfb_state r))
          → Keeps Q (handle_normal buffered gen_des clean_dirty decode_utf8 other)
      unfolding handle_normal
      handle_normal-Keeps stays = in_turn Q _ _ (normal_msg-Keeps stays) (λ done r p.
          if_state Q (done && ltb_ℤ (pos 0) (Websock.rq_len r.sock)) _ _ (more_later-Keeps r p) p)

    module _ (buffered : Websock → ℕ) (gen_des : List ℕ → List (Option ℕ) → List ℕ)
        (clean_dirty : List Call → CleanDirty) (decode_utf8 : List ℕ → Result (List ℕ))
        (other : ℤ → Rfb → Effect) where
      skip_strings-Keeps : (n : ℕ) → Keeps Q (skip_strings n)
      unfolding skip_strings
      skip_strings-Keeps zero = λ r p. p
      skip_strings-Keeps (suc n) =
          in_turn Q _ _ (shift_str-Keeps Q (some (pos 16))) (λ t. skip_strings-Keeps n)

      tight_init-Keeps : (n : Option ℤ) → Keeps Q (tight_init n)
      unfolding tight_init
      tight_init-Keeps n = waits_keep Q (some (pos 8)) (back (plus (pos 24) n)) _ (
          in_turn Q _ _ (shift16-Keeps Q) (λ s. in_turn Q _ _ (shift16-Keeps Q) (λ c.
            in_turn Q _ _ (shift16-Keeps Q) (λ e. in_turn Q _ _ (skip_bytes-Keeps 2) (λ u.
              waits_keep Q (times 16 (add (add s c) e)) (back (plus (pos 32) n)) _ (
                in_turn Q _ _ (skip_strings-Keeps (rounds s)) (λ u.
                  in_turn Q _ _ (skip_strings-Keeps (rounds c))
                    (λ u. in_turn Q _ _ (skip_strings-Keeps (rounds e)) (λ u r p. p)))))))))

      read_screen-Keeps : Keeps Q read_screen
      unfolding read_screen
      read_screen-Keeps = in_turn Q _ _ (shift16-Keeps Q) (λ w.
          in_turn Q _ _ (λ r p. p)
            (λ u. in_turn Q _ _ (shift16-Keeps Q) (λ h.
              in_turn Q _ _ (λ r p. p)
                (λ u. in_turn Q _ _ (skip_bytes-Keeps 13) (λ u. skip_bytes-Keeps 3)))))

      set_name-Keeps :
          (out : Result (List ℕ))
          → Keeps Q (set_name buffered gen_des clean_dirty decode_utf8 other out)
      unfolding set_name
      set_name-Keeps (ok name) r p = p
      set_name-Keeps (err e) r p = p

      check_events-Keeps :
          (r : Rfb) → P Q r → P Q (check_events buffered gen_des clean_dirty decode_utf8 other r)
      unfolding check_events send
      check_events-Keeps r p =
          if_state Q
            (is_normal r.rfb_state && not r.viewport_dragging && ltb 0 (length r.mouse_arr))
            (record (send buffered r.mouse_arr r) { mouse_arr = [] }) _ p p

      announce-Keeps :
          (r : Rfb) → P Q r → P Q (announce buffered gen_des clean_dirty decode_utf8 other r)
      unfolding announce send set_colour_mode
      announce-Keeps r p = check_events-Keeps _ p

      pub negotiate_server_init-Keeps :
          allowed normal ≡ true
          → Keeps Q (negotiate_server_init buffered gen_des clean_dirty decode_utf8 other)
      unfolding negotiate_server_init
      negotiate_server_init-Keeps a = waits_keep Q (some (pos 24)) (pos 0) _ (
          in_turn Q _ _ read_screen-Keeps (λ u. in_turn Q _ _ (shift32-Keeps Q) (λ n.
            waits_keep Q n (pos 24) _ (
              in_turn Q _ _ (shift_str-Keeps Q n) (λ text.
                in_turn Q _ _ (set_name-Keeps (decode_utf8 text)) (λ u.
                  in_turn Q _ _ (λ r p. if_after Q r.tightvnc _ _ (tight_init-Keeps n r p) p)
                    (λ all.
                      either_way Q (not all) _ _ (λ r p. p)
                        (in_turn Q _ _
                          (λ r p.
                            moves normal a
                              (announce buffered gen_des clean_dirty decode_utf8 other r)
                              (announce-Keeps r p))
                          (λ u r p. p)))))))))
