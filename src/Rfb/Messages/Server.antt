-- ===== src/Rfb/Messages/Server.antt =====
-- A server's reading of the client's messages, from the description of the protocol: it does not look at
-- how the client writes them.
use routercenter_old.Prelude.{
  ℕ, zero, suc, ◌+◌, ◌-◌, ◌*◌, ◌%◌, ◌^◌, Bool, true, not, ◌&&◌, Option, none, some, List, [], ◌∷◌,
  ◌++◌, map, length, ltb, ◌==◌, if◌then◌else◌,
}
use routercenter_old.Prelude.Int.{ℤ, pos, negsuc}
use routercenter_old.Rfb.Messages.{
  key_event, pointer_event, client_cut_text, pixel_format, EncodingName, enc_list, client_encodings,
  fb_update_request,
}

pub data Message : Type 0 where
  set_pixel_format : ℕ → ℕ → Bool → Message
  set_encodings : List ℕ → Message
  update_request : Bool → ℕ → ℕ → ℕ → ℕ → Message
  key : Bool → ℕ → Message
  pointer : ℕ → ℕ → ℕ → Message
  cut_text : List ℕ → Message

abbrev pub word16 : ℕ → ℕ → ℕ
word16 a b = a * 2 ^ 8 + b

abbrev pub word32 : ℕ → ℕ → ℕ → ℕ → ℕ
word32 a b c d = a * 2 ^ 24 + b * 2 ^ 16 + c * 2 ^ 8 + d

-- The first `n` elements and the rest, if there are that many.
unfoldable pub split : ℕ → List ℕ → Option (List ℕ × List ℕ)
split zero xs = some ([], xs)
split (suc n) [] = none
split (suc n) (x ∷ xs) = elim (split n xs) [ none ↦ none | some (ys, rest) ↦ some (x ∷ ys, rest) ]

unfoldable pub words : ℕ → List ℕ → Option (List ℕ × List ℕ)
words zero xs = some ([], xs)
words (suc n) (a ∷ b ∷ c ∷ d ∷ xs) = elim (words n xs) [
  | none ↦ none
  | some (ys, rest) ↦ some (word32 a b c d ∷ ys, rest)
]
words (suc n) _ = none

unfoldable pub read_format : List ℕ → Option (Message × List ℕ)
read_format
      (_ ∷ _ ∷ _ ∷ bits ∷ depth ∷ _ ∷ kind ∷ _ ∷ _ ∷ _ ∷ _ ∷ _ ∷ _ ∷ _ ∷ _ ∷ _ ∷ _ ∷ _ ∷ _ ∷ rest) =
    some (set_pixel_format bits depth (not (kind == 0)), rest)
read_format _ = none

unfoldable pub read_encodings : List ℕ → Option (Message × List ℕ)
read_encodings (_ ∷ a ∷ b ∷ rest) = elim (words (word16 a b) rest) [
  | none ↦ none
  | some (ns, rest') ↦ some (set_encodings ns, rest')
]
read_encodings _ = none

unfoldable pub read_request : List ℕ → Option (Message × List ℕ)
read_request (i ∷ a ∷ b ∷ c ∷ d ∷ e ∷ f ∷ g ∷ h ∷ rest) =
    some (update_request (not (i == 0)) (word16 a b) (word16 c d) (word16 e f) (word16 g h), rest)
read_request _ = none

unfoldable pub read_key : List ℕ → Option (Message × List ℕ)
read_key (down ∷ _ ∷ _ ∷ a ∷ b ∷ c ∷ d ∷ rest) = some (key (not (down == 0)) (word32 a b c d), rest)
read_key _ = none

unfoldable pub read_pointer : List ℕ → Option (Message × List ℕ)
read_pointer (mask ∷ a ∷ b ∷ c ∷ d ∷ rest) = some (pointer mask (word16 a b) (word16 c d), rest)
read_pointer _ = none

unfoldable pub read_cut_text : List ℕ → Option (Message × List ℕ)
read_cut_text (_ ∷ _ ∷ _ ∷ a ∷ b ∷ c ∷ d ∷ rest) = elim (split (word32 a b c d) rest) [
  | none ↦ none
  | some (text, rest') ↦ some (cut_text text, rest')
]
read_cut_text _ = none

unfoldable pub read_message : List ℕ → Option (Message × List ℕ)
unfolding read_format read_encodings read_request read_key read_pointer read_cut_text
read_message [] = none
read_message (type ∷ rest) =
    if type == 0
    then read_format rest
    else if type == 2
    then read_encodings rest
    else if type == 3
    then read_request rest
    else if type == 4
    then read_key rest
    else if type == 5
    then read_pointer rest
    else if type == 6
    then read_cut_text rest
    else none

-- All messages of a stream; `none` if it ends within one. A message has a byte at least.
unfoldable pub read_all : ℕ → List ℕ → Option (List Message)
read_all zero [] = some []
read_all zero (x ∷ xs) = none
read_all (suc f) [] = some []
read_all (suc f) (x ∷ xs) = elim (read_message (x ∷ xs)) [
  | none ↦ none
  | some (m, rest) ↦ elim (read_all f rest) [ none ↦ none | some ms ↦ some (m ∷ ms) ]
]

-- What the client sends, with the arguments of its functions.
pub data Sent : Type 0 where
  format : ℕ → ℕ → Bool → Sent
  encodings : List (EncodingName × ℤ) → Bool → Bool → Sent
  request : Bool → ℕ → ℕ → ℕ → ℕ → Sent
  pressed : ℕ → Bool → Sent
  pointed : ℕ → ℕ → ℕ → Sent
  pasted : List ℕ → Sent

unfoldable pub bytes_of : Sent → List ℕ
bytes_of (format bpp depth true_color) = pixel_format bpp depth true_color
bytes_of (encodings es local_cursor true_color) = client_encodings es local_cursor true_color
bytes_of (request i x y w h) = fb_update_request i (some (pos x)) (some (pos y)) (pos w) (pos h)
bytes_of (pressed keysym down) = key_event (pos keysym) down
bytes_of (pointed x y mask) = pointer_event (pos x) (pos y) mask
bytes_of (pasted text) = client_cut_text text

-- A number as the 32-bit word that stands for it.
abbrev pub to_word : ℤ → ℕ
to_word (pos n) = n % 2 ^ 32
to_word (negsuc n) = 2 ^ 32 - 1 - n % 2 ^ 32

unfoldable pub meaning : Sent → Message
meaning (format bpp depth true_color) = set_pixel_format (bpp * 8) (depth * 8) true_color
meaning (encodings es local_cursor true_color) =
    set_encodings (map to_word (enc_list es local_cursor true_color))
meaning (request i x y w h) = update_request i x y w h
meaning (pressed keysym down) = key down keysym
meaning (pointed x y mask) = pointer mask x y
meaning (pasted text) = cut_text text

-- The arguments fit into their fields.
unfoldable pub fits : Sent → Bool
fits (format bpp depth true_color) = ltb bpp 32 && ltb depth 32
fits (encodings es local_cursor true_color) =
    ltb (length (enc_list es local_cursor true_color)) (2 ^ 16)
fits (request i x y w h) = ltb x (2 ^ 16) && ltb y (2 ^ 16) && ltb w (2 ^ 16) && ltb h (2 ^ 16)
fits (pressed keysym down) = ltb keysym (2 ^ 32)
fits (pointed x y mask) = ltb x (2 ^ 16) && ltb y (2 ^ 16) && ltb mask 256
fits (pasted text) = ltb (length text) (2 ^ 32)

unfoldable pub all_fit : List Sent → Bool
all_fit [] = true
all_fit (s ∷ ss) = fits s && all_fit ss

unfoldable pub stream : List Sent → List ℕ
stream [] = []
stream (s ∷ ss) = bytes_of s ++ stream ss
