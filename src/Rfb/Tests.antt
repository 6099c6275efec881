-- ===== src/Rfb/Tests.antt =====
-- Runs of the client of statics/include/rfb.js.
use routercenter_old.Prelude.{
  ℕ, ◌+◌, ◌≡◌, ◌<◌, ◌≤◌, ◌⊎◌, ◌↔◌, refl, true, false, Option, none, some, List, [], ◌∷◌, ◌++◌, map,
  length, arith,
}
use routercenter_old.Prelude.Int.{ℤ, pos}
use routercenter_old.Prelude.Text.{codes}
use routercenter_old.Prelude.Result.{Result, ok}
use routercenter_old.Websock
use routercenter_old.Websock.{Websock}
use routercenter_old.Websock.Stream.{Delivers, receive_all}
use routercenter_old.Rfb.{State, failed, normal, protocol_version, security, Call, Rfb}
use routercenter_old.Rfb.Messages.{CleanDirty}
use routercenter_old.Rfb.Messages.Server.{
  Sent, all_fit, fits, format, pressed, pointed, pasted, meaning, read_all, stream,
}
use routercenter_old.Rfb.Messages.RoundTrip.{read_all-messages}
use routercenter_old.Rfb.Life.{disconnect_from}
use routercenter_old.Rfb.Updates.{Effect}
use routercenter_old.Rfb.Hextile.{start_tiles, hextile_tile, hextile_loop}
use routercenter_old.Rfb.Hextile.Gives.{Gives}
use routercenter_old.Rfb.Hextile.Consumed.{AllDrawn, hextile_loop-AllDrawn}
use routercenter_old.Rfb.Hextile.Tiling.{at_tile, InTile, tile_number, hextile_covers}
use routercenter_old.Rfb.Words.{choose_type}
use routercenter_old.Rfb.Session.{handle_normal, handle_message}
use routercenter_old.Rfb.Session.Events.{Happening, connected_to, opened, frame, run, happen}
use routercenter_old.Rfb.Diagram.{Follows, handle_message-Follows, handle_normal-Follows}
use routercenter_old.Rfb.Security.{offered, acceptable, choose_type_greatest}
use routercenter_old.Rfb.Deaf.{OnlySocket, disconnect_from_deaf}
use routercenter_old.Rfb.Inputs.{
  Input, key, button, move, paste, reset_keys, strokes, happening, said, mask_after, said_all,
  run_inputs,
}

abbrev idle_socket : Websock
idle_socket = record {
  rq = map some (codes "RFB 003.008\n");
  rqi = 0;
  rq_max = 10000;
  sq = [];
  mode = Websock.binary;
  max_buffered_amount = 200;
  sent = [];
}

abbrev client : State → Rfb
client s = record {
  host = codes "router";
  port = 5900;
  rfb_password = codes "pass";
  rfb_state = s;
  version = 0;
  max_version = 38;
  auth_scheme = none;
  tightvnc = false;
  xvp_ver = some 0;
  sock = idle_socket;
  receives = true;
  hears_message = true;
  hears_open = true;
  hears_close = true;
  hears_error = true;
  timers = [];
  next_timer = 1;
  send_timer = none;
  msg_timer = none;
  disconn_timer = none;
  fbu = record {
    rects = 0;
    subrects = pos 0;
    lines = 0;
    bytes = 0;
    x = 0;
    y = 0;
    width = 0;
    height = 0;
    encoding = pos 0;
    tiles = 0;
    tiles_x = 0;
    tiles_y = 0;
    total_tiles = 0;
    last_subencoding = 0;
    background = none;
    foreground = none;
  };
  fb_bpp = 4;
  fb_depth = 3;
  fb_width = some (pos 640);
  fb_height = some (pos 480);
  fb_name = [];
  mouse_button_mask = 0;
  mouse_arr = [];
  viewport_drag = false;
  viewport_dragging = false;
  viewport_drag_pos = (pos 0, pos 0);
  true_color = true;
  local_cursor = false;
  shared = true;
  view_only = false;
  encrypt = false;
  debug_logging = false;
  xvp_password_sep = 64;
  repeater_id = [];
  calls = [];
}

abbrev nothing_held : Websock → ℕ
nothing_held ws = 0

abbrev no_cipher : List ℕ → List (Option ℕ) → List ℕ
no_cipher word challenge = []

abbrev one_box : List Call → CleanDirty
one_box calls = record {
  clean_box = record { x = some (pos 0); y = some (pos 0); w = some (pos 0); h = some (pos 0) };
  dirty_boxes = [];
}

abbrev plain : List ℕ → Result (List ℕ)
plain text = ok text

abbrev skips : ℤ → Rfb → Effect
skips n r = record {
  answer = ok true;
  sock = r.sock;
  fbu = r.fbu;
  fb_width = r.fb_width;
  fb_height = r.fb_height;
  calls = [];
  fails = false;
}

abbrev session : List Sent
session = format 4 3 true ∷ pressed 65507 true ∷ pointed 10 20 1 ∷ pasted (codes "hello") ∷ []

read_all-messages_example :
    read_all (length (stream session)) (stream session) ≡ some (map meaning session)
unfolding all_fit fits
read_all-messages_example = read_all-messages session refl

handle_message-Follows_example :
    Follows protocol_version
      (handle_message nothing_held no_cipher one_box plain skips
        (client protocol_version)).1.rfb_state
handle_message-Follows_example =
    handle_message-Follows nothing_held no_cipher one_box plain skips (client protocol_version) refl

handle_normal-Follows_example :
    Follows normal
      (handle_normal nothing_held no_cipher one_box plain skips (client normal)).1.rfb_state
handle_normal-Follows_example =
    handle_normal-Follows nothing_held no_cipher one_box plain skips (client normal) refl

abbrev types : List (Option ℕ)
types = some 2 ∷ some 5 ∷ some 30 ∷ []

-- With VNC authentication offered, the greater type 5 is taken, which fails.
takes_five : choose_type 0 types ≡ 5
unfolding choose_type
takes_five = refl

choose_type_greatest_example :
    ((choose_type 0 types ≡ 0)
      ⊎ ((offered (choose_type 0 types) types ≡ true) × (acceptable (choose_type 0 types) ≡ true)))
    × ((t : ℕ) → offered t types ≡ true → acceptable t ≡ true → t ≤ choose_type 0 types)
choose_type_greatest_example = choose_type_greatest types

abbrev again : List Happening
again = connected_to (codes "router") 5900 (codes "pass") ∷ opened none ∷ frame (codes "UkZC") ∷ []

-- The client after that.
abbrev again_connected : Rfb
again_connected =
    run nothing_held no_cipher one_box plain skips again (disconnect_from (client normal))

disconnect_from_deaf_example :
    OnlySocket nothing_held no_cipher one_box plain skips again_connected
      (happen nothing_held no_cipher one_box plain skips (opened none) again_connected)
    × OnlySocket nothing_held no_cipher one_box plain skips again_connected
        (happen nothing_held no_cipher one_box plain skips (frame (codes "UkZC")) again_connected)
disconnect_from_deaf_example =
    disconnect_from_deaf nothing_held no_cipher one_box plain skips again none (codes "UkZC")
      (client normal)

abbrev inputs : List Input
inputs =
    key 97 true
    ∷ key 97 false
    ∷ button (pos 3, pos 4) 3 4 true 1
    ∷ move (pos 5, pos 6) 5 6
    ∷ paste (codes "hi")
    ∷ reset_keys
    ∷ strokes 65 none
    ∷ []

-- The far end with an empty queue, before the first frame.
abbrev far_end : Websock
far_end = record idle_socket { rq = [] }

run_inputs_example :
    Delivers far_end
      (run nothing_held no_cipher one_box plain skips (map happening inputs) (client normal)).sock
      ([] ++ map some (stream (said_all 0 inputs)))
    × (read_all (length (stream (said_all 0 inputs))) (stream (said_all 0 inputs))
        ≡ some (map meaning (said_all 0 inputs)))
unfolding receive_all all_fit fits said_all said mask_after
run_inputs_example =
    run_inputs nothing_held no_cipher one_box plain skips inputs (client normal) 0 far_end []
      (record {
        is_running = refl;
        is_active = refl;
        no_drag = refl;
        no_dragging = refl;
        none_waits = refl;
        buttons = refl;
      })
      tt (omega arith) refl
      (record { far = far_end; received = refl; same_mode = refl; whole = refl })

-- A rectangle of 20 by 5 of which nothing has been drawn, and its first tile: a background, a foreground
-- and a subrectangle.
abbrev tiled : Rfb
tiled =
    let r = client normal in
    record r {
      sock = record r.sock {
        rq = map some (14 ∷ 1 ∷ 2 ∷ 3 ∷ 0 ∷ 9 ∷ 9 ∷ 9 ∷ 0 ∷ 1 ∷ 33 ∷ 17 ∷ 0 ∷ []);
      };
      fbu =
          start_tiles
            (record r.fbu { rects = 1; x = 2; y = 3; width = 20; height = 5; encoding = pos 5 });
    }

hextile_covers_example :
    (tile_number tiled.fbu 17 4 < (start_tiles tiled.fbu).total_tiles)
    × ((k : ℕ)
        → k < (start_tiles tiled.fbu).total_tiles
        → InTile (at_tile k tiled.fbu) (tiled.fbu.x + 17) (tiled.fbu.y + 4)
          ↔ (k ≡ tile_number tiled.fbu 17 4))
unfolding start_tiles
hextile_covers_example = hextile_covers tiled.fbu 17 4 (omega arith) (omega arith)

hextile_loop-AllDrawn_example : Gives AllDrawn (hextile_loop 2 tiled)
unfolding start_tiles
hextile_loop-AllDrawn_example = hextile_loop-AllDrawn 2 tiled refl

-- The tile is drawn and taken from the queue.
tile_taken : (hextile_tile tiled).1.sock.rqi ≡ 12
unfolding hextile_tile start_tiles routercenter_old.Rfb.◌>>=◌ Websock.rq_len Websock.set_rqi
tile_taken = refl
