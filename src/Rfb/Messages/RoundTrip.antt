-- ===== src/Rfb/Messages/RoundTrip.antt =====
-- The client's messages, read by a server.
use routercenter_old.Prelude.{
  ℕ, zero, suc, ◌/◌, ◌%◌, ◌^◌, ◌≤◌, ◌≡◌, refl, sym, ap, ◌∙◌, Bool, true, false, ◌&&◌, some, List,
  [], ◌∷◌, ◌++◌, map, append_assoc, append-nil, length, length-append, ltb, arith, ltb→lt,
}
use routercenter_old.Prelude.Int.{ℤ, pos, negsuc}
use routercenter_old.Rfb.Messages.{
  byte_at, push32, key_event, pointer_event, client_cut_text, pixel_format, EncodingName, enc_list,
  push32_all, client_encodings, fb_update_request,
}
use routercenter_old.Rfb.Messages.Server.{
  Message, set_encodings, cut_text, word16, word32, split, words, read_format, read_encodings,
  read_request, read_key, read_pointer, read_cut_text, read_message, read_all, Sent, format,
  encodings, request, pressed, pointed, pasted, bytes_of, to_word, meaning, fits, all_fit, stream,
}

word16-bytes : (n : ℕ) → ltb n (2 ^ 16) ≡ true → word16 (n / 2 ^ 8 % 256) (n / 2 ^ 0 % 256) ≡ n
word16-bytes n h = omega (arith, ltb→lt n (2 ^ 16) h)

word32-bytes :
    (v : ℤ) → word32 (byte_at 24 v) (byte_at 16 v) (byte_at 8 v) (byte_at 0 v) ≡ to_word v
word32-bytes (pos n) = omega arith
word32-bytes (negsuc n) = omega arith

split-append : (xs ys : List ℕ) → split (length xs) (xs ++ ys) ≡ some (xs, ys)
unfolding split
split-append [] ys = refl
split-append (x ∷ xs) ys = rw (split-append xs ys)

-- The bytes of a list of words.
abbrev word_bytes : List ℤ → List ℕ
word_bytes [] = []
word_bytes (n ∷ ns) = byte_at 24 n ∷ byte_at 16 n ∷ byte_at 8 n ∷ byte_at 0 n ∷ word_bytes ns

push32_all-word_bytes : (ns : List ℤ) (arr : List ℕ) → push32_all ns arr ≡ arr ++ word_bytes ns
unfolding push32_all
push32_all-word_bytes [] arr = sym (append-nil arr)
push32_all-word_bytes (n ∷ ns) arr =
    push32_all-word_bytes ns (push32 n arr) ∙ append_assoc arr _ (word_bytes ns)

words-word_bytes :
    (ns : List ℤ) (rest : List ℕ)
    → words (length ns) (word_bytes ns ++ rest) ≡ some (map to_word ns, rest)
unfolding words
words-word_bytes [] rest = refl
words-word_bytes (n ∷ ns) rest = rw (words-word_bytes ns rest, word32-bytes n)

client_encodings-word_bytes :
    (es : List (EncodingName × ℤ)) (local_cursor true_color : Bool)
    → client_encodings es local_cursor true_color
      ≡ 2
        ∷ 0
        ∷ (length (enc_list es local_cursor true_color) / 2 ^ 8 % 256)
        ∷ (length (enc_list es local_cursor true_color) / 2 ^ 0 % 256)
        ∷ word_bytes (enc_list es local_cursor true_color)
unfolding client_encodings
client_encodings-word_bytes es local_cursor true_color =
    push32_all-word_bytes (enc_list es local_cursor true_color) _

read_encodings-words :
    (a b : ℕ) (nums : List ℤ) (rest : List ℕ)
    → word16 a b ≡ length nums
    → read_encodings (0 ∷ a ∷ b ∷ (word_bytes nums ++ rest))
      ≡ some (set_encodings (map to_word nums), rest)
unfolding read_encodings
read_encodings-words a b nums rest e =
    ground (arith, ap (λ n. words n (word_bytes nums ++ rest)) e, words-word_bytes nums rest)

read_cut_text-text :
    (a b c d : ℕ) (text rest : List ℕ)
    → word32 a b c d ≡ length text
    → read_cut_text (0 ∷ 0 ∷ 0 ∷ a ∷ b ∷ c ∷ d ∷ (text ++ rest)) ≡ some (cut_text text, rest)
unfolding read_cut_text
read_cut_text-text a b c d text rest e =
    ground (arith, ap (λ n. split n (text ++ rest)) e, split-append text rest)

read_message-bytes_of :
    (s : Sent) (rest : List ℕ)
    → fits s ≡ true
    → read_message (bytes_of s ++ rest) ≡ some (meaning s, rest)
unfolding fits bytes_of meaning read_message read_format read_encodings read_request read_key
    read_pointer read_cut_text pixel_format client_encodings fb_update_request key_event
    pointer_event client_cut_text
read_message-bytes_of (format bpp depth true) rest h = ground arith
read_message-bytes_of (format bpp depth false) rest h = ground arith
read_message-bytes_of (encodings es local_cursor true_color) rest h =
    let nums = enc_list es local_cursor true_color in
    ap (λ l. read_message (l ++ rest)) (client_encodings-word_bytes es local_cursor true_color)
    ∙ read_encodings-words _ _ nums rest (word16-bytes (length nums) h)
read_message-bytes_of (request true x y w k) rest h =
    ground (arith, word16-bytes x, word16-bytes y, word16-bytes w, word16-bytes k)
read_message-bytes_of (request false x y w k) rest h =
    ground (arith, word16-bytes x, word16-bytes y, word16-bytes w, word16-bytes k)
read_message-bytes_of (pressed keysym true) rest h = ground (arith, word32-bytes (pos keysym))
read_message-bytes_of (pressed keysym false) rest h = ground (arith, word32-bytes (pos keysym))
read_message-bytes_of (pointed x y mask) rest h = ground (arith, word16-bytes x, word16-bytes y)
read_message-bytes_of (pasted text) rest h =
    let size : length text % 2 ^ 32 ≡ length text =
      omega (arith, ltb→lt (length text) (2 ^ 32) h) in
    read_cut_text-text _ _ _ _ text rest (word32-bytes (pos (length text)) ∙ size)

bytes_of_pos : (s : Sent) → 1 ≤ length (bytes_of s)
unfolding bytes_of pixel_format fb_update_request key_event pointer_event client_cut_text
bytes_of_pos (format bpp depth true_color) = omega arith
bytes_of_pos (encodings es local_cursor true_color) =
    rw (client_encodings-word_bytes es local_cursor true_color) (omega arith)
bytes_of_pos (request i x y w h) = omega arith
bytes_of_pos (pressed keysym down) = omega arith
bytes_of_pos (pointed x y mask) = omega arith
bytes_of_pos (pasted text) = omega arith

read_all-step :
    (xs ys : List ℕ) (m : Message) (ms : List Message) (f : ℕ)
    → read_message xs ≡ some (m, ys)
    → read_all f ys ≡ some ms
    → read_all (suc f) xs ≡ some (m ∷ ms)
unfolding read_all
read_all-step [] ys m ms f e k = absurd (unfold read_message in ground (arith, e))
read_all-step (x ∷ xs) ys m ms f e k = rw (e, k, read_all)

both : (a b : Bool) → (a && b) ≡ true → (a ≡ true) × (b ≡ true)
both true b h = (refl, h)
both false b h = cc

read_all-stream :
    (ss : List Sent) (f : ℕ)
    → all_fit ss ≡ true
    → length (stream ss) ≤ f
    → read_all f (stream ss) ≡ some (map meaning ss)
unfolding stream all_fit
read_all-stream [] zero h k = unfold read_all in refl
read_all-stream [] (suc f) h k = unfold read_all in refl
read_all-stream (s ∷ ss) zero h k =
    absurd (omega (arith, k, bytes_of_pos s, length-append (bytes_of s) (stream ss)))
read_all-stream (s ∷ ss) (suc f) h k =
    let (first, later) = both (fits s) (all_fit ss) h in
    read_all-step (bytes_of s ++ stream ss) (stream ss) (meaning s) (map meaning ss) f
      (read_message-bytes_of s (stream ss) first)
      (read_all-stream ss f later
        (omega (arith, k, bytes_of_pos s, length-append (bytes_of s) (stream ss))))

-- A stream of messages of the client, whose arguments fit into their fields, is read by a server as
-- exactly those messages, in order.
pub read_all-messages :
    (ss : List Sent)
    → all_fit ss ≡ true
    → read_all (length (stream ss)) (stream ss) ≡ some (map meaning ss)
read_all-messages ss h = read_all-stream ss (length (stream ss)) h (omega arith)
