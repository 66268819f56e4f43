-- ===== src/Klib/Stdlib.antt =====
-- abstract-machine/libs/klib/src/stdlib.c: `rand`, `srand` and `atoi`. A string is the list of its bytes
-- up to the NUL, below 128, and an `int` or `unsigned long` is its 32-bit pattern.
pub mod Atoi
use os_workbench.Base.{
  ℕ, ◌+◌, ◌-◌, ◌*◌, ◌/◌, ◌%◌, ◌^◌, Bool, ◌&&◌, List, [], ◌∷◌, ◌==◌, leb, if◌then◌else◌,
}

abbrev pub word : ℕ
word = 2 ^ 32

-- The number that `rand` returns, and `next`.
unfoldable pub rand : ℕ → ℕ × ℕ
rand next = let next' = (next * 1103515245 + 12345) % word in ((next' / 65536) % 32768, next')

unfoldable pub srand : ℕ → ℕ
srand seed = seed

-- The loops, with `ret` so far.
unfoldable pub atoi8 : ℕ → List ℕ → ℕ
atoi8 ret [] = ret
atoi8 ret (c ∷ s) = atoi8 ((ret * 8 + c + word - b'0') % word) s

unfoldable pub atoi10 : ℕ → List ℕ → ℕ
atoi10 ret [] = ret
atoi10 ret (c ∷ s) = atoi10 ((ret * 10 + c + word - b'0') % word) s

abbrev between : ℕ → ℕ → ℕ → Bool
between a b c = leb a c && leb c b

-- A byte that is no digit and no letter counts for nothing.
unfoldable pub digit16 : ℕ → ℕ
digit16 c =
    if between b'0' b'9' c
    then c - b'0'
    else if between b'a' b'z' c
    then c - b'a' + 10
    else if between b'A' b'Z' c
    then c - b'A' + 10
    else 0

unfoldable pub atoi16 : ℕ → List ℕ → ℕ
unfolding digit16
atoi16 ret [] = ret
atoi16 ret (c ∷ s) = atoi16 ((ret * 16 + digit16 c) % word) s

-- Behind a leading 0: hexadecimal behind "0x", else octal.
unfoldable pub prefixed : List ℕ → ℕ
prefixed [] = atoi8 0 []
prefixed (c ∷ s) = if c == b'x' then atoi16 0 s else atoi8 0 (c ∷ s)

unfoldable pub atoi : List ℕ → ℕ
atoi [] = atoi10 0 []
atoi (c ∷ s) =
    if c == b'0'
    then prefixed s
    else if c == b'-'
    then (word - atoi10 0 s) % word
    else if c == b'+'
    then atoi10 0 s
    else atoi10 0 (c ∷ s)
