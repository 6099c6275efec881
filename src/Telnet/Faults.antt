-- ===== src/Telnet/Faults.antt =====
-- Streams of the telnet protocol that `do_recv` of wstelnet.js reads wrongly.
use routercenter_old.Prelude.{ℕ, ◌≡◌, true, ◌||◌, List, ◌∷◌, ltb, ◌==◌, arith}
use routercenter_old.Telnet.{Recv, round, receive, on_command}
use routercenter_old.Telnet.Replies.{receive-cons}

-- A command without a value (the codes below 250), or the byte 255 sent as data by doubling it, takes
-- the byte behind it along: that byte, which is text or begins the next command, has no effect, and
-- no 255 is shown.
pub swallowed :
    (code next : ℕ) (rest : List ℕ) (r : Recv)
    → (ltb code 250 || code == 255) ≡ true
    → receive (255 ∷ code ∷ next ∷ rest) r ≡ receive rest r
unfolding round on_command
swallowed code next rest r h = rw receive-cons (ground arith)
