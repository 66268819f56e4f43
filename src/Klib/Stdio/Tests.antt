-- ===== src/Klib/Stdio/Tests.antt =====
-- Runs of the formatted output of stdio.c.
use os_workbench.Base.{ℕ, ◌-◌, ◌≡◌, refl, arith, List, [], ◌∷◌, take, length}
use os_workbench.Klib.Stdlib.{word, atoi}
use os_workbench.Klib.Stdio.{Arg, int, str, printed, vsnprintf, sprintf, int_min}
use os_workbench.Klib.Stdio.Text.{text}
use os_workbench.Klib.Stdio.Full.{vsnprintf-text, sprintf-text}
use os_workbench.Klib.Stdio.Roundtrip.{d_format, sprintf-atoi}

-- "%3d %s", and its text for 42 and "ok".
abbrev row : List ℕ
row = b'%' ∷ b'3' ∷ b'd' ∷ b' ' ∷ b'%' ∷ b's' ∷ []

abbrev row_args : List Arg
row_args = int 42 ∷ str (b'o' ∷ b'k' ∷ []) ∷ []

abbrev row_text : List ℕ
row_text = b' ' ∷ b'4' ∷ b'2' ∷ b' ' ∷ b'o' ∷ b'k' ∷ []

vsnprintf-text_example : vsnprintf 6 row row_args ≡ printed (take 5 row_text) 5
unfolding text
vsnprintf-text_example =
    vsnprintf-text 6 row row_args row_text (omega arith) (omega arith) (omega arith, tt) refl

sprintf-atoi_example :
    (b : List ℕ) × (sprintf d_format (int (word - 7) ∷ []) ≡ printed b (length b))
    × (atoi b ≡ word - 7)
sprintf-atoi_example = sprintf-atoi (word - 7) (omega arith) (omega arith)

-- The least int loses its digits, and a 0 its only one behind blanks.
least : sprintf d_format (int int_min ∷ []) ≡ printed (b'-' ∷ b'0' ∷ []) 2
unfolding text
least =
    sprintf-text d_format (int int_min ∷ []) (b'-' ∷ b'0' ∷ []) (omega arith, tt) refl (omega arith)

abbrev wide : List ℕ
wide = b'%' ∷ b'2' ∷ b'd' ∷ []

wide_zero : sprintf wide (int 0 ∷ []) ≡ printed (b' ' ∷ b' ' ∷ []) 2
unfolding text
wide_zero = sprintf-text wide (int 0 ∷ []) (b' ' ∷ b' ' ∷ []) (omega arith, tt) refl (omega arith)
