-- ===== src/Telnet/Items.antt =====
-- The items of a telnet stream that the client understands, their bytes, and what they should cause:
-- a description of the protocol that does not look at the parser.
use routercenter_old.Prelude.{
  ℕ, Bool, true, false, not, ◌&&◌, ◌||◌, List, [], ◌∷◌, ◌++◌, ◌==◌, if◌then◌else◌,
}
use routercenter_old.Telnet.{term_type}

pub data Item : Type 0 where
  char : ℕ → Item
  dont do_option wont will : ℕ → Item
  ask_type : Item

unfoldable pub bytes_of : Item → List ℕ
bytes_of (char c) = c ∷ []
bytes_of (dont v) = 255 ∷ 254 ∷ v ∷ []
bytes_of (do_option v) = 255 ∷ 253 ∷ v ∷ []
bytes_of (wont v) = 255 ∷ 252 ∷ v ∷ []
bytes_of (will v) = 255 ∷ 251 ∷ v ∷ []
bytes_of ask_type = 255 ∷ 250 ∷ 24 ∷ 1 ∷ 255 ∷ 240 ∷ []

unfoldable pub stream : List Item → List ℕ
stream [] = []
stream (i ∷ is) = bytes_of i ++ stream is

-- A char is none of the two bytes that begin a command.
unfoldable pub is_proper : Item → Bool
is_proper (char c) = not (c == 255) && not (c == 242)
is_proper _ = true

unfoldable pub all_proper : List Item → Bool
unfolding is_proper
all_proper [] = true
all_proper (i ∷ is) = is_proper i && all_proper is

-- The answer to an item: an option is taken up only if it is the terminal type (24) that is asked for,
-- or the echo (1) that is offered; every other request is refused, and a refusal is not answered.
unfoldable pub reply : Item → List ℕ
reply (char c) = []
reply (dont v) = []
reply (do_option v) = 255 ∷ (if v == 24 then 251 else 252) ∷ v ∷ []
reply (wont v) = []
reply (will v) = 255 ∷ (if v == 1 then 253 else 254) ∷ v ∷ []
reply ask_type = 255 ∷ 250 ∷ 24 ∷ 0 ∷ term_type ++ 255 ∷ 240 ∷ []

unfoldable pub replies : List Item → List ℕ
replies [] = []
replies (i ∷ is) = reply i ++ replies is

unfoldable pub text : List Item → List ℕ
text [] = []
text (char c ∷ is) = c ∷ text is
text (i ∷ is) = text is

unfoldable pub offers_echo : List Item → Bool
offers_echo [] = false
offers_echo (will v ∷ is) = v == 1 || offers_echo is
offers_echo (i ∷ is) = offers_echo is
