-- ===== src/Rfb.antt =====
-- statics/include/rfb.js: the VNC client. Its timers are an event loop of their own, so that what comes
-- first is a matter of the order of events; the log, the statistics and the texts of states are left out.
pub mod Messages
pub mod Queue
pub mod Life
pub mod Words
pub mod Handshake
pub mod Hextile
pub mod Updates
pub mod Session
pub mod Keeps
pub mod Diagram
pub mod Security
pub mod Deaf
pub mod Inputs
mod Tests
use routercenter_old.Prelude.{
  ℕ, zero, suc, ◌+◌, ◌-◌, ◌*◌, Bool, true, false, Option, none, some, List, [], ◌∷◌, ◌++◌, ◌==◌,
  if◌then◌else◌,
}
use routercenter_old.Prelude.Int.{ℤ, pos}
use routercenter_old.Prelude.Result.{Result, ok, err, Exception}
use routercenter_old.Websock
use routercenter_old.Websock.{Websock}

-- `_rfb_state`; `client_initialisation` is 'ClientInitialisation', and so on.
pub data State : Type 0 where
  disconnected loaded connect disconnect failed fatal normal password : State
  protocol_version security authentication security_result : State
  client_initialisation server_initialisation : State

-- What a timer does when it fires.
pub data Task : Type 0 where
  flush_queue more_messages disconnect_timeout to_disconnected retry_init : Task

-- What is asked of the other parts, in order: the state's listener, the socket, the input handlers, the
-- display and the page.
pub data Call : Type 0 where
  state_changed : State → State → Call
  sock_opened sock_closed grabbed ungrabbed default_cursor display_cleared : Call
  password_required belled : Call
  clipboard desktop_name : List ℕ → Call
  xvp_initialised : Option ℕ → Call
  true_colour : Bool → Call
  resized : Option ℤ → Option ℤ → Call
  colour_map : List (Option ℤ) → Option ℤ → ℕ → Call
  viewport_moved : ℤ → ℤ → Call
  blitted : ℤ → ℤ → ℤ → ℤ → List (Option ℕ) → Call
  copied : Option ℤ → Option ℤ → ℤ → ℤ → ℤ → ℤ → Call
  filled : ℤ → ℤ → ℤ → ℤ → List (Option ℕ) → Call
  tile_started : ℕ → ℕ → ℕ → ℕ → List (Option ℕ) → Call
  tile_painted : ℕ → ℕ → ℕ → ℕ → List (Option ℕ) → Call
  tile_finished : Call
  fbu_received fbu_completed : ℕ → ℕ → ℕ → ℕ → ℤ → Call

-- `_FBU`, as far as RAW, COPYRECT, RRE and HEXTILE use it. A count of subrectangles of 2^31 or more is
-- read as a negative number. `last_subencoding` is 0 before the first, where the code has undefined.
pub record Fbu : Type 0 where
  pub rects : ℕ
  pub subrects : ℤ
  pub lines : ℕ
  pub bytes : ℕ
  pub x : ℕ
  pub y : ℕ
  pub width : ℕ
  pub height : ℕ
  pub encoding : ℤ
  pub tiles : ℕ
  pub tiles_x : ℕ
  pub tiles_y : ℕ
  pub total_tiles : ℕ
  pub last_subencoding : ℕ
  pub background : Option (List (Option ℕ))
  pub foreground : Option (List (Option ℕ))

-- `version` and `max_version` count tenths. `hears_…` tells whether the handler of the socket's event
-- is on, `receives` whether the socket still hands frames on. A timer is known by its number.
pub record Rfb : Type 0 where
  pub host : List ℕ
  pub port : ℕ
  pub rfb_password : List ℕ
  pub rfb_state : State
  pub version : ℕ
  pub max_version : ℕ
  pub auth_scheme : Option ℤ
  pub tightvnc : Bool
  pub xvp_ver : Option ℕ
  pub sock : Websock
  pub receives : Bool
  pub hears_message : Bool
  pub hears_open : Bool
  pub hears_close : Bool
  pub hears_error : Bool
  pub timers : List (ℕ × Task)
  pub next_timer : ℕ
  pub send_timer : Option ℕ
  pub msg_timer : Option ℕ
  pub disconn_timer : Option ℕ
  pub fbu : Fbu
  pub fb_bpp : ℕ
  pub fb_depth : ℕ
  pub fb_width : Option ℤ
  pub fb_height : Option ℤ
  pub fb_name : List ℕ
  pub mouse_button_mask : ℕ
  pub mouse_arr : List ℕ
  pub viewport_drag : Bool
  pub viewport_dragging : Bool
  pub viewport_drag_pos : ℤ × ℤ
  pub true_color : Bool
  pub local_cursor : Bool
  pub shared : Bool
  pub view_only : Bool
  pub encrypt : Bool
  pub debug_logging : Bool
  pub xvp_password_sep : ℕ
  pub repeater_id : List ℕ
  pub calls : List Call

-- A method that may throw; what it has changed before stays changed.
abbrev pub M {ℓ} : Type ℓ → Type ℓ
M A = Rfb → Result A × Rfb

infixl 5 ◌>>=◌ ◌>>◌
unfoldable pub ◌>>=◌ {ℓ κ} : {A : Type ℓ} {B : Type κ} → M A → (A → M B) → M B
◌>>=◌ m f r = let (out, r') = m r in elim out [ ok a ↦ f a r' | err e ↦ (err e, r') ]

abbrev pub ◌>>◌ {ℓ κ} : {A : Type ℓ} {B : Type κ} → M A → M B → M B
m >> k = m >>= λ _. k

abbrev pub pure {ℓ} : {A : Type ℓ} → A → M A
pure a r = (ok a, r)

abbrev pub modify : (Rfb → Rfb) → M (Unit {0})
modify f r = (ok tt, f r)

abbrev pub get : M Rfb
get r = (ok r, r)

abbrev pub with_fbu : (Fbu → Fbu) → Rfb → Rfb
with_fbu f r = record r { fbu = f r.fbu }

abbrev pub call : Call → Rfb → Rfb
call c r = record r { calls = r.calls ++ c ∷ [] }
