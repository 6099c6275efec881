-- ===== src/Telnet/Keysym.antt =====
-- statics/telnet/keysym.js: the key symbol of a DOM key event on the terminal page.
use routercenter_old.Prelude.{ℕ, ◌+◌, Bool, ◌&&◌, leb, ◌==◌, if◌then◌else◌}

-- The modifier and special keys
unfoldable pub remap_special : ℕ → ℕ
remap_special code =
    if code == 8
    then 0xFF08
    else if code == 9
    then 0xFF09
    else if code == 13
    then 0xFF0D
    else if code == 27
    then 0xFF1B
    else if code == 45
    then 0xFF63
    else if code == 46
    then 0xFFFF
    else if code == 36
    then 0xFF50
    else if code == 35
    then 0xFF57
    else if code == 33
    then 0xFF55
    else if code == 34
    then 0xFF56
    else if code == 37
    then 0xFF51
    else if code == 38
    then 0xFF52
    else if code == 39
    then 0xFF53
    else if code == 40
    then 0xFF54
    else if code == 112
    then 0xFFBE
    else if code == 113
    then 0xFFBF
    else if code == 114
    then 0xFFC0
    else if code == 115
    then 0xFFC1
    else if code == 116
    then 0xFFC2
    else if code == 117
    then 0xFFC3
    else if code == 118
    then 0xFFC4
    else if code == 119
    then 0xFFC5
    else if code == 120
    then 0xFFC6
    else if code == 121
    then 0xFFC7
    else if code == 122
    then 0xFFC8
    else if code == 123
    then 0xFFC9
    else if code == 16
    then 0xFFE1
    else if code == 17
    then 0xFFE3
    else if code == 18
    then 0xFFE9
    else code

-- The symbols; 109 is a minus in the Gecko engine alone.
unfoldable pub remap_symbol : Bool → ℕ → ℕ
remap_symbol gecko keysym =
    if keysym == 186
    then 59
    else if keysym == 187
    then 61
    else if keysym == 188
    then 44
    else if keysym == 189
    then 45
    else if keysym == 190
    then 46
    else if keysym == 191
    then 47
    else if keysym == 192
    then 96
    else if keysym == 219
    then 91
    else if keysym == 220
    then 92
    else if keysym == 221
    then 93
    else if keysym == 222
    then 39
    else if keysym == 109 && gecko
    then 45
    else keysym

-- The keys with shift down
unfoldable pub remap_shifted : ℕ → ℕ
remap_shifted keysym =
    if keysym == 48
    then 41
    else if keysym == 49
    then 33
    else if keysym == 50
    then 64
    else if keysym == 51
    then 35
    else if keysym == 52
    then 36
    else if keysym == 53
    then 37
    else if keysym == 54
    then 94
    else if keysym == 55
    then 38
    else if keysym == 56
    then 42
    else if keysym == 57
    then 40
    else if keysym == 59
    then 58
    else if keysym == 61
    then 43
    else if keysym == 44
    then 60
    else if keysym == 45
    then 95
    else if keysym == 46
    then 62
    else if keysym == 47
    then 63
    else if keysym == 96
    then 126
    else if keysym == 91
    then 123
    else if keysym == 92
    then 124
    else if keysym == 93
    then 125
    else if keysym == 39
    then 34
    else keysym

unfoldable pub remap_unshifted : ℕ → ℕ
remap_unshifted keysym = if leb 65 keysym && leb keysym 90 then keysym + 32 else keysym

-- `getKeysym`, of the key code and the shift flag
unfoldable pub get_keysym : Bool → ℕ → Bool → ℕ
get_keysym gecko code shift =
    let keysym = remap_symbol gecko (remap_special code) in
    if shift then remap_shifted keysym else remap_unshifted keysym
