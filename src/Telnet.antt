-- ===== src/Telnet.antt =====
-- statics/telnet/wstelnet.js: the telnet client of the terminal page. The Websock below it is used in
-- binary mode, so what it hands up are bytes; the terminal (VT100.js) appears as the calls made to it.
pub mod Items
pub mod Replies
pub mod Faults
pub mod Keysym
pub mod Keys
pub mod Control
mod Tests
use routercenter_old.Prelude.{
  ℕ, zero, suc, Bool, true, false, ◌&&◌, Option, none, some, List, [], ◌∷◌, ◌++◌, map, length, drop,
  ltb, ◌==◌, if◌then◌else◌,
}
use routercenter_old.Prelude.Text.{codes}

-- `sQ`, where `none` is an undefined value that has been pushed; the text gathered for the terminal;
-- and whether the terminal has been told not to echo.
pub record Recv : Type 0 where
  pub sq : List (Option ℕ)
  pub str : List ℕ
  pub noecho : Bool

abbrev pub term_type : List ℕ
term_type = codes "VT100"

-- `arr.shift()`
abbrev pub head? : List ℕ → Option ℕ
head? [] = none
head? (x ∷ xs) = some x

abbrev pub is_value : Option ℕ → ℕ → Bool
is_value none n = false
is_value (some v) n = v == n

unfoldable pub push : List (Option ℕ) → Recv → Recv
push vs r = record r { sq = r.sq ++ vs }

-- DO: only a terminal type is granted.
unfoldable pub on_do : Option ℕ → Recv → Recv
unfolding push
on_do value r =
    if is_value value 24
    then push (some 255 ∷ some 251 ∷ value ∷ []) r
    else push (some 255 ∷ some 252 ∷ value ∷ []) r

-- WILL: only the echo is accepted.
unfoldable pub on_will : Option ℕ → Recv → Recv
unfolding push
on_will value r =
    if is_value value 1
    then record (push (some 255 ∷ some 253 ∷ value ∷ []) r) { noecho = true }
    else push (some 255 ∷ some 254 ∷ value ∷ []) r

-- Whether `SEND IAC SE` comes next.
unfoldable pub asks_type : List ℕ → Bool
asks_type (a ∷ b ∷ c ∷ rest) = a == 1 && (b == 255 && c == 240)
asks_type _ = false

-- SB: only a request for the terminal type is answered; what is not understood stays in the input.
unfoldable pub on_sb : Option ℕ → List ℕ → Recv → List ℕ × Recv
unfolding push asks_type
on_sb value arr r =
    if is_value value 24
    then if asks_type arr
      then (
        drop 3 arr,
        push
            ((some 255 ∷ some 250 ∷ some 24 ∷ some 0 ∷ [])
              ++ (map some term_type ++ some 255 ∷ some 240 ∷ []))
            r,
      )
      else (arr, r)
    else (arr, r)

-- The inner switch: a command with its value, where 254 is DONT, 253 DO, 252 WONT, 251 WILL and 250 SB.
unfoldable pub on_command : Option ℕ → Option ℕ → List ℕ → Recv → List ℕ × Recv
on_command code value arr r =
    if is_value code 254
    then (arr, r)
    else if is_value code 253
    then (arr, on_do value r)
    else if is_value code 252
    then (arr, r)
    else if is_value code 251
    then (arr, on_will value r)
    else if is_value code 250
    then on_sb value arr r
    else (arr, r)

-- One round of the loop: 255 is IAC, 242 is Data Mark, and everything else is text.
unfoldable pub round : ℕ → List ℕ → Recv → List ℕ × Recv
round chr arr r =
    if chr == 255
    then on_command (head? arr) (head? (drop 1 arr)) (drop 2 arr) r
    else if chr == 242
    then (drop 2 arr, r)
    else (arr, record r { str = r.str ++ chr ∷ [] })

-- `while (arr.length > 0)`; each round takes at least one byte, so their number is enough rounds.
unfoldable pub rounds : ℕ → List ℕ → Recv → Recv
rounds zero arr r = r
rounds (suc fuel) [] r = r
rounds (suc fuel) (chr ∷ arr) r = let (arr', r') = round chr arr r in rounds fuel arr' r'

unfoldable pub receive : List ℕ → Recv → Recv
receive arr r = rounds (length arr) arr r

-- What `do_recv` does to the outside: the calls in order.
pub data Call : Type 0 where
  send : List (Option ℕ) → Call
  write : List ℕ → Call
  noecho : Call

unfoldable pub do_send : List (Option ℕ) → List Call
do_send [] = []
do_send (v ∷ vs) = send (v ∷ vs) ∷ []

abbrev write_str : List ℕ → List Call
write_str [] = []
write_str (c ∷ cs) = write (c ∷ cs) ∷ []

unfoldable pub start : Recv
start = record { sq = []; str = []; noecho = false }

-- `do_recv` on the bytes that wait; `sQ` is empty before and after. (The terminal may be told more
-- than once not to echo, which is the same as once.)
unfoldable pub do_recv : List ℕ → List Call
do_recv arr =
    let r = receive arr start in
    (if r.noecho then noecho ∷ [] else []) ++ (do_send r.sq ++ write_str r.str)
