-- ===== src/Keyboard/Xk.antt =====
-- statics/include/keysym.js: the X11 key symbols `XK_…` that the client names; `enter` is XK_Return.
use routercenter_old.Prelude.{ℕ}

abbrev pub back_space : ℕ
back_space = 0xff08

abbrev pub tab : ℕ
tab = 0xff09

abbrev pub enter : ℕ
enter = 0xff0d

abbrev pub escape : ℕ
escape = 0xff1b

abbrev pub delete : ℕ
delete = 0xffff

abbrev pub home : ℕ
home = 0xff50

abbrev pub left : ℕ
left = 0xff51

abbrev pub up : ℕ
up = 0xff52

abbrev pub right : ℕ
right = 0xff53

abbrev pub down : ℕ
down = 0xff54

abbrev pub page_up : ℕ
page_up = 0xff55

abbrev pub page_down : ℕ
page_down = 0xff56

abbrev pub end : ℕ
end = 0xff57

abbrev pub insert : ℕ
insert = 0xff63

abbrev pub menu : ℕ
menu = 0xff67

abbrev pub kp_multiply : ℕ
kp_multiply = 0xffaa

abbrev pub kp_add : ℕ
kp_add = 0xffab

abbrev pub kp_separator : ℕ
kp_separator = 0xffac

abbrev pub kp_subtract : ℕ
kp_subtract = 0xffad

abbrev pub kp_decimal : ℕ
kp_decimal = 0xffae

abbrev pub kp_divide : ℕ
kp_divide = 0xffaf

abbrev pub kp_0 : ℕ
kp_0 = 0xffb0

abbrev pub f1 : ℕ
f1 = 0xffbe

abbrev pub shift_l : ℕ
shift_l = 0xffe1

abbrev pub control_l : ℕ
control_l = 0xffe3

abbrev pub meta_l : ℕ
meta_l = 0xffe7

abbrev pub alt_l : ℕ
alt_l = 0xffe9

abbrev pub super_l : ℕ
super_l = 0xffeb

abbrev pub super_r : ℕ
super_r = 0xffec

abbrev pub iso_level3_shift : ℕ
iso_level3_shift = 0xfe03

abbrev pub space : ℕ
space = 0x20

abbrev pub plus : ℕ
plus = 0x2b

abbrev pub comma : ℕ
comma = 0x2c

abbrev pub minus : ℕ
minus = 0x2d

abbrev pub period : ℕ
period = 0x2e
