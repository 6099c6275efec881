-- ===== src/Rfb/Inputs.antt =====
-- From the keyboard, the mouse and the clipboard of statics/include/rfb.js to the other end of its socket.
use routercenter_old.Prelude.{
  ℕ, ◌≡◌, refl, sym, ap, ◌∙◌, Bool, true, false, Option, none, some, List, [], ◌∷◌, ◌++◌, map,
  append_assoc, append-nil, length, if◌then◌else◌, arith,
}
use Prim.Native.Nat.{bit_or, bit_xor}
use routercenter_old.Prelude.All.{All, All-append, IsByte}
use routercenter_old.Prelude.Int.{ℤ, pos}
use routercenter_old.Prelude.Result.{Result}
use routercenter_old.Websock.{Websock}
use routercenter_old.Websock
use routercenter_old.Websock.Stream.{send_all, handed, Delivers, send_all-Delivers}
use routercenter_old.Keyboard.Xk
use routercenter_old.Rfb.{normal, Call, Rfb}
use routercenter_old.Rfb.Messages.{CleanDirty, key_event, pointer_event, client_cut_text}
use routercenter_old.Rfb.Messages.Server.{
  Sent, pressed, pointed, pasted, bytes_of, stream, all_fit, meaning, read_all,
}
use routercenter_old.Rfb.Messages.RoundTrip.{read_all-messages}
use routercenter_old.Rfb.Queue.{send}
use routercenter_old.Rfb.Updates.{Effect}
use routercenter_old.Rfb.Session.{check_events}
use routercenter_old.Rfb.Session.Events.{
  Happening, key_pressed, mouse_pressed, mouse_moved, pasting, ctrl_alt_del, key_sent, send_key,
  key_strokes, happen, run, handle_key_press, handle_mouse_button, handle_mouse_move,
  clipboard_paste_from, send_ctrl_alt_del,
}

-- What the user does, with positions on the screen that are not negative.
pub data Input : Type 0 where
  key : ℕ → Bool → Input
  button : ℤ × ℤ → ℕ → ℕ → Bool → ℕ → Input
  move : ℤ × ℤ → ℕ → ℕ → Input
  paste : List ℕ → Input
  reset_keys : Input
  strokes : ℕ → Option Bool → Input

abbrev pub happening : Input → Happening
happening (key k down) = key_pressed (pos k) down
happening (button at x y down bmask) = mouse_pressed at (pos x) (pos y) down bmask
happening (move at x y) = mouse_moved at (pos x) (pos y)
happening (paste text) = pasting text
happening reset_keys = ctrl_alt_del
happening (strokes k down) = key_sent (pos k) down

-- The buttons that are down after it.
unfoldable pub mask_after : ℕ → Input → ℕ
mask_after mask (button at x y down bmask) = if down then bit_or mask bmask else bit_xor mask bmask
mask_after mask _ = mask

-- What the server should be told, where `mask` is the buttons that are down before it.
unfoldable pub said : ℕ → Input → List Sent
unfolding mask_after
said mask (key k down) = pressed k down ∷ []
said mask (button at x y down bmask) = pointed x y (mask_after mask (button at x y down bmask)) ∷ []
said mask (move at x y) = pointed x y mask ∷ []
said mask (paste text) = pasted text ∷ []
said mask reset_keys =
    pressed Xk.control_l true
    ∷ pressed Xk.alt_l true
    ∷ pressed Xk.delete true
    ∷ pressed Xk.delete false
    ∷ pressed Xk.alt_l false
    ∷ pressed Xk.control_l false
    ∷ []
said mask (strokes k none) = pressed k true ∷ pressed k false ∷ []
said mask (strokes k (some down)) = pressed k down ∷ []

unfoldable pub said_all : ℕ → List Input → List Sent
unfolding said mask_after
said_all mask [] = []
said_all mask (i ∷ is) = said mask i ++ said_all (mask_after mask i) is

-- The texts that are pasted consist of chars up to 255.
abbrev pub Plain : Input → Type 0
Plain (paste text) = All IsByte text
Plain _ = Unit

pasted-IsByte : (text : List ℕ) → All IsByte text → All IsByte (text ++ [])
pasted-IsByte text h = rw append-nil h

said-IsByte : (mask : ℕ) (i : Input) → Plain i → All IsByte (stream (said mask i))
unfolding stream said bytes_of key_event pointer_event client_cut_text
said-IsByte mask (key k true) h = omega arith
said-IsByte mask (key k false) h = omega arith
said-IsByte mask (button at x y down bmask) h = omega arith
said-IsByte mask (move at x y) h = omega arith
said-IsByte mask (paste text) h = ground (arith, pasted-IsByte text h)
said-IsByte mask reset_keys h = omega arith
said-IsByte mask (strokes k none) h = omega arith
said-IsByte mask (strokes k (some true)) h = omega arith
said-IsByte mask (strokes k (some false)) h = omega arith

stream-append : (ss ts : List Sent) → stream (ss ++ ts) ≡ stream ss ++ stream ts
unfolding stream
stream-append [] ts = refl
stream-append (s ∷ ss) ts =
    ap (λ z. bytes_of s ++ z) (stream-append ss ts)
    ∙ sym (append_assoc (bytes_of s) (stream ss) (stream ts))

said_all-IsByte :
    (mask : ℕ) (is : List Input) → All Plain is → All IsByte (stream (said_all mask is))
unfolding said_all
said_all-IsByte mask [] h = unfold stream in tt
said_all-IsByte mask (i ∷ is) h =
    rw (stream-append (said mask i) (said_all (mask_after mask i) is)) (
      All-append IsByte (stream (said mask i)) (stream (said_all (mask_after mask i) is))
        (said-IsByte mask i h.0) (said_all-IsByte (mask_after mask i) is h.1))

-- A client that tells the server what the user does, where the mouse does not drag the viewport.
pub record Talks (r : Rfb) (mask : ℕ) : Type 0 where
  pub is_running : r.rfb_state ≡ normal
  pub is_active : r.view_only ≡ false
  pub no_drag : r.viewport_drag ≡ false
  pub no_dragging : r.viewport_dragging ≡ false
  pub none_waits : r.mouse_arr ≡ []
  pub buttons : r.mouse_button_mask ≡ mask

module _ (buffered : Websock → ℕ) (gen_des : List ℕ → List (Option ℕ) → List ℕ)
    (clean_dirty : List Call → CleanDirty) (decode_utf8 : List ℕ → Result (List ℕ))
    (other : ℤ → Rfb → Effect) where
  module _ (r : Rfb) (mask : ℕ) (t : Talks r mask) where
    happen-Talks :
        (i : Input)
        → Talks
            (happen buffered gen_des clean_dirty decode_utf8 other (happening i) r)
            (mask_after mask i)
    unfolding happen handle_key_press handle_mouse_button handle_mouse_move check_events
        clipboard_paste_from send_ctrl_alt_del send_key key_strokes send mask_after
    happen-Talks i =
        let a = t.is_running in
        let b = t.is_active in
        let c = t.none_waits in
        let d = t.buttons in
        let e = t.no_drag in
        let f = t.no_dragging in
        elim i
          as (λ i.
            Talks (happen buffered gen_des clean_dirty decode_utf8 other (happening i) r)
              (mask_after mask i)) [
                | key k down ↦ record {
                  is_running = ground (arith, a, b, e, f);
                  is_active = ground (arith, a, b, e, f);
                  no_drag = ground (arith, a, b, e, f);
                  no_dragging = ground (arith, a, b, e, f);
                  none_waits = ground (arith, a, b, c, e, f);
                  buttons = ground (arith, a, b, d, e, f);
                }
                | button at x y down bmask ↦ record {
                  is_running = ground (arith, a, b, e, f);
                  is_active = ground (arith, a, b, e, f);
                  no_drag = ground (arith, a, b, e, f);
                  no_dragging = ground (arith, a, b, e, f);
                  none_waits = ground (arith, a, b, c, e, f);
                  buttons = ground (arith, a, b, d, e, f);
                }
                | move at x y ↦ record {
                  is_running = ground (arith, a, b, e, f);
                  is_active = ground (arith, a, b, e, f);
                  no_drag = ground (arith, a, b, e, f);
                  no_dragging = ground (arith, a, b, e, f);
                  none_waits = ground (arith, a, b, c, e, f);
                  buttons = ground (arith, a, b, d, e, f);
                }
                | paste text ↦ record {
                  is_running = ground (arith, a, b, e, f);
                  is_active = ground (arith, a, b, e, f);
                  no_drag = ground (arith, a, b, e, f);
                  no_dragging = ground (arith, a, b, e, f);
                  none_waits = ground (arith, a, b, c, e, f);
                  buttons = ground (arith, a, b, d, e, f);
                }
                | reset_keys ↦ record {
                  is_running = ground (arith, a, b, e, f);
                  is_active = ground (arith, a, b, e, f);
                  no_drag = ground (arith, a, b, e, f);
                  no_dragging = ground (arith, a, b, e, f);
                  none_waits = ground (arith, a, b, c, e, f);
                  buttons = ground (arith, a, b, d, e, f);
                }
                | strokes k down ↦ record {
                  is_running = ground (arith, a, b, e, f);
                  is_active = ground (arith, a, b, e, f);
                  no_drag = ground (arith, a, b, e, f);
                  no_dragging = ground (arith, a, b, e, f);
                  none_waits = ground (arith, a, b, c, e, f);
                  buttons = ground (arith, a, b, d, e, f);
                }
              ]

    happen_sends :
        (i : Input)
        → (happen buffered gen_des clean_dirty decode_utf8 other (happening i) r).sock
          ≡ (Websock.send (stream (said mask i)) (buffered r.sock) r.sock).1
    unfolding happen handle_key_press handle_mouse_button handle_mouse_move check_events
        clipboard_paste_from send_ctrl_alt_del send_key key_strokes send mask_after said stream
        bytes_of pointer_event Websock.send
    happen_sends (key k down) = rw (t.is_active, append-nil)
    happen_sends (button at x y down bmask) =
        rw (t.no_drag, t.no_dragging, t.is_active, t.none_waits, t.buttons, append-nil)
    happen_sends (move at x y) =
        rw
          (t.no_drag, t.no_dragging, t.is_active, t.none_waits, t.buttons, t.is_running, append-nil)
    happen_sends (paste text) = rw (t.is_running, append-nil)
    happen_sends reset_keys = rw (t.is_running, t.is_active, append-nil)
    happen_sends (strokes k none) = rw (t.is_running, t.is_active, append-nil)
    happen_sends (strokes k (some down)) = rw (t.is_running, t.is_active, append-nil)

  -- The calls of `send` that the socket gets.
  record Said (is : List Input) (r : Rfb) (mask : ℕ) : Type 0 where
    calls : List (List ℕ × ℕ)
    same_sock :
        (run buffered gen_des clean_dirty decode_utf8 other (map happening is) r).sock
        ≡ send_all calls r.sock
    all_said : handed calls ≡ stream (said_all mask is)

  run-Said : (is : List Input) (r : Rfb) (mask : ℕ) → Talks r mask → Said is r mask
  unfolding run send_all handed said_all
  run-Said [] r mask t = record { calls = []; same_sock = refl; all_said = unfold stream in refl }
  run-Said (i ∷ is) r mask t =
      let next = happen buffered gen_des clean_dirty decode_utf8 other (happening i) r in
      let s = run-Said is next (mask_after mask i) (happen-Talks r mask t i) in
      record {
        calls = (stream (said mask i), buffered r.sock) ∷ s.calls;
        same_sock = s.same_sock ∙ ap (send_all s.calls) (happen_sends r mask t i);
        all_said =
            ap (λ z. stream (said mask i) ++ z) s.all_said
            ∙ sym (stream-append (said mask i) (said_all (mask_after mask i) is));
      }

  -- In a running session that is not only viewed, without dragging of the viewport, whatever the user does with keys, buttons, the mouse
  -- and the clipboard (the arguments fit into their fields, and the texts consist of chars up to 255):
  -- after it the far end's queue, with what still waits to be sent, ends in exactly the bytes of those
  -- messages, and a server reads them as what the user did, in order.
  pub run_inputs :
      (is : List Input) (r : Rfb) (mask : ℕ) (far : Websock) (before : List (Option ℕ))
      → Talks r mask
      → All IsByte r.sock.sq
      → All Plain is
      → all_fit (said_all mask is) ≡ true
      → Delivers far r.sock before
      → Delivers far
          (run buffered gen_des clean_dirty decode_utf8 other (map happening is) r).sock
          (before ++ map some (stream (said_all mask is)))
        × (read_all (length (stream (said_all mask is))) (stream (said_all mask is))
            ≡ some (map meaning (said_all mask is)))
  run_inputs is r mask far before t waiting plain fit d =
      let s = run-Said is r mask t in
      let bytes : All IsByte (handed s.calls) = rw s.all_said (said_all-IsByte mask is plain) in
      (
        rw (s.same_sock, ← s.all_said)
            (send_all-Delivers s.calls far r.sock before waiting bytes d),
        read_all-messages (said_all mask is) fit,
      )
