-- ===== src/Rfb/Messages.antt =====
-- statics/include/rfb.js, `RFB.messages`: the bytes of the client's messages; and `push8`, `push16` and
-- `push32` of statics/include/util.js.
pub mod Server
pub mod RoundTrip
use routercenter_old.Prelude.{
  ℕ, ◌+◌, ◌-◌, ◌*◌, ◌/◌, ◌%◌, ◌^◌, Bool, true, false, not, ◌&&◌, Option, none, some, List, [], ◌∷◌,
  ◌++◌, length, if◌then◌else◌,
}
use routercenter_old.Prelude.Int.{ℤ, pos, negsuc, ltb_ℤ}

-- The byte of a 32-bit word from bit `k` on, `(num >> k) & 0xFF`.
abbrev pub byte_at : ℕ → ℤ → ℕ
byte_at k (pos n) = n / 2 ^ k % 256
byte_at k (negsuc n) = 255 - n / 2 ^ k % 256

abbrev pub push8 : ℤ → List ℕ → List ℕ
push8 num arr = arr ++ byte_at 0 num ∷ []

abbrev pub push16 : ℤ → List ℕ → List ℕ
push16 num arr = arr ++ byte_at 8 num ∷ byte_at 0 num ∷ []

abbrev pub push32 : ℤ → List ℕ → List ℕ
push32 num arr = arr ++ byte_at 24 num ∷ byte_at 16 num ∷ byte_at 8 num ∷ byte_at 0 num ∷ []

abbrev pub bit : Bool → ℤ
bit true = pos 1
bit false = pos 0

unfoldable pub key_event : ℤ → Bool → List ℕ
key_event keysym down = push32 keysym (push16 (pos 0) (push8 (bit down) (4 ∷ [])))

unfoldable pub pointer_event : ℤ → ℤ → ℕ → List ℕ
pointer_event x y mask = push16 y (push16 x (push8 (pos mask) (5 ∷ [])))

-- `text` is the char codes, which are pushed as they are.
unfoldable pub client_cut_text : List ℕ → List ℕ
client_cut_text text =
    push32 (pos (length text)) (push8 (pos 0) (push8 (pos 0) (push8 (pos 0) (6 ∷ [])))) ++ text

unfoldable pub pixel_format : ℕ → ℕ → Bool → List ℕ
pixel_format bpp depth true_color =
    let head = push8 (pos 0) (push8 (pos 0) (push8 (pos 0) (0 ∷ []))) in
    let sizes = push8 (pos (depth * 8)) (push8 (pos (bpp * 8)) head) in
    let kinds = push8 (bit true_color) (push8 (pos 0) sizes) in
    let maxima = push16 (pos 255) (push16 (pos 255) (push16 (pos 255) kinds)) in
    let shifts = push8 (pos 0) (push8 (pos 8) (push8 (pos 16) maxima)) in
    push8 (pos 0) (push8 (pos 0) (push8 (pos 0) shifts))

-- The entries of `_encodings`: what the code asks of a name, and the number.
pub data EncodingName : Type 0 where
  cursor tight other : EncodingName

unfoldable pub enc_list : List (EncodingName × ℤ) → Bool → Bool → List ℤ
enc_list [] local_cursor true_color = []
enc_list ((cursor, n) ∷ rest) local_cursor true_color =
    let nums = enc_list rest local_cursor true_color in if not local_cursor then nums else n ∷ nums
enc_list ((tight, n) ∷ rest) local_cursor true_color =
    let nums = enc_list rest local_cursor true_color in if not true_color then nums else n ∷ nums
enc_list ((other, n) ∷ rest) local_cursor true_color = n ∷ enc_list rest local_cursor true_color

unfoldable pub push32_all : List ℤ → List ℕ → List ℕ
push32_all [] arr = arr
push32_all (n ∷ ns) arr = push32_all ns (push32 n arr)

unfoldable pub client_encodings : List (EncodingName × ℤ) → Bool → Bool → List ℕ
unfolding enc_list push32_all
client_encodings encodings local_cursor true_color =
    let nums = enc_list encodings local_cursor true_color in
    push32_all nums (push16 (pos (length nums)) (push8 (pos 0) (2 ∷ [])))

-- A box of the display; `none` is undefined.
pub record Box : Type 0 where
  pub x : Option ℤ
  pub y : Option ℤ
  pub w : Option ℤ
  pub h : Option ℤ

abbrev pub or_else : Option ℤ → ℤ → ℤ
or_else none d = d
or_else (some v) d = v

unfoldable pub fb_update_request : Bool → Option ℤ → Option ℤ → ℤ → ℤ → List ℕ
fb_update_request incremental x y w h = push16 h (
    push16 w
      (push16 (or_else y (pos 0)) (push16 (or_else x (pos 0)) (push8 (bit incremental) (3 ∷ [])))))

-- `v > 0`, false of undefined
abbrev pub is_above_0 : Option ℤ → Bool
is_above_0 none = false
is_above_0 (some v) = ltb_ℤ (pos 0) v

unfoldable pub dirty_requests : List Box → ℤ → ℤ → List ℕ
unfolding fb_update_request
dirty_requests [] fb_width fb_height = []
dirty_requests (db ∷ rest) fb_width fb_height =
    fb_update_request false db.x db.y (or_else db.w fb_width) (or_else db.h fb_height)
    ++ dirty_requests rest fb_width fb_height

pub record CleanDirty : Type 0 where
  pub clean_box : Box
  pub dirty_boxes : List Box

unfoldable pub fb_update_requests : CleanDirty → ℤ → ℤ → List ℕ
unfolding fb_update_request dirty_requests
fb_update_requests clean_dirty fb_width fb_height =
    let cb = clean_dirty.clean_box in
    (if is_above_0 cb.w && is_above_0 cb.h
      then fb_update_request true cb.x cb.y (or_else cb.w fb_width) (or_else cb.h fb_height)
      else [])
    ++ dirty_requests clean_dirty.dirty_boxes fb_width fb_height
