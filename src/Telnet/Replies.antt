-- ===== src/Telnet/Replies.antt =====
-- The parser of wstelnet.js against the description of the protocol.
use routercenter_old.Prelude.{
  ℕ, zero, suc, ◌≤◌, ◌≡◌, refl, Bool, true, false, ◌||◌, some, List, [], ◌∷◌, ◌++◌, map,
  append_assoc, append-nil, length, length-drop, drop, if◌then◌else◌, arith,
}
use mathlib.Core.List.{map-append}
use routercenter_old.Telnet.{
  Recv, noecho, push, on_do, on_will, asks_type, on_sb, on_command, round, rounds, receive, do_send,
  write_str, start, do_recv,
}
use routercenter_old.Telnet.Items.{
  Item, char, dont, do_option, wont, will, ask_type, bytes_of, stream, is_proper, all_proper, reply,
  replies, text, offers_echo,
}

-- A round takes its byte and never puts any back.
round-le : (chr : ℕ) (arr : List ℕ) (r : Recv) → length (round chr arr r).0 ≤ length arr
unfolding round on_command on_sb
round-le chr arr r = ground (arith, length-drop 2 arr, length-drop 3 (drop 2 arr))

rounds-fuel :
    (f g : ℕ) (arr : List ℕ) (r : Recv)
    → length arr ≤ f
    → length arr ≤ g
    → rounds f arr r ≡ rounds g arr r
unfolding rounds
rounds-fuel zero zero arr r h k = refl
rounds-fuel zero (suc g) [] r h k = refl
rounds-fuel zero (suc g) (chr ∷ arr) r h k = absurd (omega arith)
rounds-fuel (suc f) zero [] r h k = refl
rounds-fuel (suc f) zero (chr ∷ arr) r h k = absurd (omega arith)
rounds-fuel (suc f) (suc g) [] r h k = refl
rounds-fuel (suc f) (suc g) (chr ∷ arr) r h k =
    let shorter = round-le chr arr r in
    rounds-fuel f g (round chr arr r).0 (round chr arr r).1 (omega (arith, shorter))
      (omega (arith, shorter))

-- The number of bytes is enough rounds: the loop goes on after each round as it would afresh, up to
-- the end of the input.
pub receive-cons :
    (chr : ℕ) (arr : List ℕ) (r : Recv)
    → receive (chr ∷ arr) r ≡ receive (round chr arr r).0 (round chr arr r).1
unfolding receive rounds
receive-cons chr arr r =
    rounds-fuel (length arr) (length (round chr arr r).0) _ _ (round-le chr arr r) (omega arith)

-- What the items do to the state of the loop.
abbrev after : List Item → Recv → Recv
after is r = record {
  sq = r.sq ++ map some (replies is);
  str = r.str ++ text is;
  noecho = r.noecho || offers_echo is;
}

abbrev step : Item → Recv → Recv
step i r = record {
  sq = r.sq ++ map some (reply i);
  str = r.str ++ text (i ∷ []);
  noecho = r.noecho || offers_echo (i ∷ []);
}

receive-item :
    (i : Item) (rest : List ℕ) (r : Recv)
    → is_proper i ≡ true
    → receive (bytes_of i ++ rest) r ≡ receive rest (step i r)
unfolding bytes_of is_proper reply text offers_echo round on_command on_do on_will on_sb asks_type
    push
receive-item (char c) rest r h = rw receive-cons (ground (arith, append-nil r.sq))
receive-item (dont v) rest r h = rw receive-cons (ground (arith, append-nil r.sq, append-nil r.str))
receive-item (do_option v) rest r h = rw receive-cons (ground (arith, append-nil r.str))
receive-item (wont v) rest r h = rw receive-cons (ground (arith, append-nil r.sq, append-nil r.str))
receive-item (will v) rest r h = rw receive-cons (ground (arith, append-nil r.str))
receive-item ask_type rest r h = rw receive-cons (ground (arith, append-nil r.str))

text-cons : (i : Item) (is : List Item) → text (i ∷ is) ≡ text (i ∷ []) ++ text is
unfolding text
text-cons (char c) is = refl
text-cons (dont v) is = refl
text-cons _ is = refl

offers_echo-cons :
    (i : Item) (is : List Item) → offers_echo (i ∷ is) ≡ (offers_echo (i ∷ []) || offers_echo is)
unfolding offers_echo
offers_echo-cons (will v) is = ground arith
offers_echo-cons (char c) is = refl
offers_echo-cons _ is = refl

or_assoc : (a b c : Bool) → ((a || b) || c) ≡ (a || (b || c))
or_assoc true b c = refl
or_assoc false b c = refl

after-cons : (i : Item) (is : List Item) (r : Recv) → after is (step i r) ≡ after (i ∷ is) r
unfolding replies
after-cons i is r =
    rw
      (
        text-cons i is,
        offers_echo-cons i is,
        map-append,
        append_assoc r.sq,
        append_assoc r.str,
        or_assoc r.noecho,
      )
      refl

receive-stream :
    (is : List Item) (r : Recv) → all_proper is ≡ true → receive (stream is) r ≡ after is r
unfolding stream all_proper
receive-stream [] r h =
    unfold receive rounds replies text offers_echo in
    ground (arith, append-nil r.sq, append-nil r.str)
receive-stream (i ∷ is) r h =
    rw (receive-item i (stream is) r (ground arith), receive-stream is (step i r) (ground arith))
      (after-cons i is r)

-- On any stream of items in which no char is a byte that begins a command, `do_recv` tells the
-- terminal not to echo exactly if the server offers the echo, sends the answers of all items in
-- order, and writes the chars, in order, to the terminal.
pub do_recv-stream :
    (is : List Item)
    → all_proper is ≡ true
    → do_recv (stream is)
      ≡ (if offers_echo is then noecho ∷ [] else [])
        ++ (do_send (map some (replies is)) ++ write_str (text is))
unfolding do_recv start
do_recv-stream is h = rw (receive-stream is _ h)
