-- ===== src/Keyboard/Keysym.antt =====
-- statics/include/keyboard.js: the guess of a key symbol from a DOM key code.
use routercenter_old.Prelude.{ℕ, ◌+◌, ◌-◌, Bool, ◌&&◌, Option, none, some, leb, ◌==◌, if◌then◌else◌}
use routercenter_old.Keyboard.Xk

-- `nonCharacterKey` of a key code; 0 stands for a missing one, which the source tests with `!`.
unfoldable pub non_character_key : ℕ → Option ℕ
non_character_key code =
    if code == 0
    then none
    else if leb 0x70 code && leb code 0x87
    then some (Xk.f1 + code - 0x70)
    else if code == 8
    then some Xk.back_space
    else if code == 13
    then some Xk.enter
    else if code == 9
    then some Xk.tab
    else if code == 27
    then some Xk.escape
    else if code == 46
    then some Xk.delete
    else if code == 36
    then some Xk.home
    else if code == 35
    then some Xk.end
    else if code == 33
    then some Xk.page_up
    else if code == 34
    then some Xk.page_down
    else if code == 45
    then some Xk.insert
    else if code == 37
    then some Xk.left
    else if code == 38
    then some Xk.up
    else if code == 39
    then some Xk.right
    else if code == 40
    then some Xk.down
    else if code == 16
    then some Xk.shift_l
    else if code == 17
    then some Xk.control_l
    else if code == 18
    then some Xk.alt_l
    else if code == 224
    then some Xk.meta_l
    else if code == 225
    then some Xk.iso_level3_shift
    else if code == 91
    then some Xk.super_l
    else if code == 92
    then some Xk.super_r
    else if code == 93
    then some Xk.menu
    else none

-- `keysymFromKeyCode` of a number
unfoldable pub keysym_from_key_code : ℕ → Bool → Option ℕ
unfolding non_character_key
keysym_from_key_code code shift =
    if leb 0x30 code && leb code 0x39
    then some code
    else if leb 0x41 code && leb code 0x5a
    then some (if shift then code else code + 32)
    else if leb 0x60 code && leb code 0x69
    then some (Xk.kp_0 + (code - 0x60))
    else if code == 0x20
    then some Xk.space
    else if code == 0x6a
    then some Xk.kp_multiply
    else if code == 0x6b
    then some Xk.kp_add
    else if code == 0x6c
    then some Xk.kp_separator
    else if code == 0x6d
    then some Xk.kp_subtract
    else if code == 0x6e
    then some Xk.kp_decimal
    else if code == 0x6f
    then some Xk.kp_divide
    else if code == 0xbb
    then some Xk.plus
    else if code == 0xbc
    then some Xk.comma
    else if code == 0xbd
    then some Xk.minus
    else if code == 0xbe
    then some Xk.period
    else non_character_key code

-- `substituteCodepoint`: s and t with comma below become s and t with cedilla.
unfoldable pub substitute_codepoint : ℕ → ℕ
substitute_codepoint cp =
    if cp == 0x218
    then 0x15e
    else if cp == 0x219
    then 0x15f
    else if cp == 0x21a
    then 0x162
    else if cp == 0x21b
    then 0x163
    else cp
