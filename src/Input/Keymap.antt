-- ===== src/Input/Keymap.antt =====
-- The codes of the keys that input.c names, abstract-machine/am/amdev.h, and the tables of
-- kernel/src/devices/input/keymaps.c in the order of the codes; the entries behind the last are 0.
use os_workbench.Base.{ℕ, List, [], ◌∷◌}

abbrev pub key_capslock : ℕ
key_capslock = 42

abbrev pub key_lshift : ℕ
key_lshift = 55

abbrev pub key_rshift : ℕ
key_rshift = 66

abbrev pub key_lctrl : ℕ
key_lctrl = 67

abbrev pub key_lalt : ℕ
key_lalt = 69

abbrev pub key_ralt : ℕ
key_ralt = 71

abbrev pub key_rctrl : ℕ
key_rctrl = 72

abbrev pub keymap : List ℕ
keymap =
    0 ∷ 0 ∷ 0 ∷ 0 ∷ 0 ∷ 0 ∷ 0 ∷ 0 ∷ 0 ∷ 0 ∷ 0 ∷ 0 ∷ 0 ∷ 0 ∷ b'`' ∷ b'1' ∷ b'2' ∷ b'3' ∷ b'4' ∷ b'5'
    ∷ b'6' ∷ b'7' ∷ b'8' ∷ b'9' ∷ b'0' ∷ b'-' ∷ b'=' ∷ 8 ∷ 0 ∷ b'q' ∷ b'w' ∷ b'e' ∷ b'r' ∷ b't'
    ∷ b'y' ∷ b'u' ∷ b'i' ∷ b'o' ∷ b'p' ∷ b'[' ∷ b']' ∷ 92 ∷ 0 ∷ b'a' ∷ b's' ∷ b'd' ∷ b'f' ∷ b'g'
    ∷ b'h' ∷ b'j' ∷ b'k' ∷ b'l' ∷ b';' ∷ 39 ∷ 10 ∷ 0 ∷ b'z' ∷ b'x' ∷ b'c' ∷ b'v' ∷ b'b' ∷ b'n'
    ∷ b'm' ∷ b',' ∷ b'.' ∷ b'/' ∷ 0 ∷ 0 ∷ 0 ∷ 0 ∷ 32 ∷ []

abbrev pub keymap_shift : List ℕ
keymap_shift =
    0 ∷ 0 ∷ 0 ∷ 0 ∷ 0 ∷ 0 ∷ 0 ∷ 0 ∷ 0 ∷ 0 ∷ 0 ∷ 0 ∷ 0 ∷ 0 ∷ b'~' ∷ b'!' ∷ b'@' ∷ b'#' ∷ b'$' ∷ b'%'
    ∷ b'^' ∷ b'&' ∷ b'*' ∷ b'(' ∷ b')' ∷ b'_' ∷ b'+' ∷ 8 ∷ 0 ∷ b'Q' ∷ b'W' ∷ b'E' ∷ b'R' ∷ b'T'
    ∷ b'Y' ∷ b'U' ∷ b'I' ∷ b'O' ∷ b'P' ∷ b'{' ∷ b'}' ∷ b'|' ∷ 0 ∷ b'A' ∷ b'S' ∷ b'D' ∷ b'F' ∷ b'G'
    ∷ b'H' ∷ b'J' ∷ b'K' ∷ b'L' ∷ b':' ∷ 34 ∷ 0 ∷ 0 ∷ b'Z' ∷ b'X' ∷ b'C' ∷ b'V' ∷ b'B' ∷ b'N' ∷ b'M'
    ∷ b'<' ∷ b'>' ∷ b'?' ∷ 0 ∷ 0 ∷ 0 ∷ 0 ∷ 32 ∷ []
