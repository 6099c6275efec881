-- ===== src/Telnet/Tests.antt =====
-- The theorems of the telnet client at concrete streams and keys.
use routercenter_old.Prelude.{◌≡◌, refl, true, some, List, [], ◌∷◌, ◌++◌, map, if◌then◌else◌}
use routercenter_old.Telnet.{noecho, do_recv, do_send, write_str, receive, start}
use routercenter_old.Telnet.Items.{
  Item, char, do_option, wont, will, ask_type, stream, all_proper, offers_echo, replies, text,
  is_proper,
}
use routercenter_old.Telnet.Replies.{do_recv-stream}
use routercenter_old.Telnet.Faults.{swallowed}

abbrev greeting : List Item
greeting = char 104 ∷ will 1 ∷ do_option 24 ∷ do_option 31 ∷ wont 3 ∷ ask_type ∷ char 105 ∷ []

greeting_proper : all_proper greeting ≡ true
unfolding all_proper is_proper
greeting_proper = refl

do_recv-stream_example :
    do_recv (stream greeting)
    ≡ (if offers_echo greeting then noecho ∷ [] else [])
      ++ (do_send (map some (replies greeting)) ++ write_str (text greeting))
do_recv-stream_example = do_recv-stream greeting greeting_proper

swallowed_example : receive (255 ∷ 241 ∷ 65 ∷ 66 ∷ []) start ≡ receive (66 ∷ []) start
swallowed_example = swallowed 241 65 (66 ∷ []) start refl
