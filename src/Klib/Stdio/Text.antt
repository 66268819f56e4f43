-- ===== src/Klib/Stdio/Text.antt =====
-- The text that a format of stdio.c and its arguments stand for, with no regard to the room.
use os_workbench.Base.{
  ℕ, ◌+◌, ◌-◌, ◌*◌, ◌/◌, ◌%◌, ◌^◌, ◌<◌, true, false, ◌||◌, Option, none, some, List, [], ◌∷◌, ◌++◌,
  map, ◌==◌, ltb, leb, if◌then◌else◌, length, replicate, ap,
}
use os_workbench.Klib.Stdlib.{word}
use os_workbench.Klib.Stdlib.Atoi.{digit}
use os_workbench.Klib.Stdio.{Arg, int, str, then_num, int_min, between, isalpha}
use os_workbench.Klib.Stdio.Decimal.{decimal}

-- A number in decimal behind blanks up to the width, which must fit in ten bytes. 0 has no digits, and
-- shows as a 0 only where no blank is before it.
abbrev pub numeral : (width v : ℕ) → Option (List ℕ)
numeral width v =
    let ds = map digit (decimal 10 v) in
    let l = replicate (width - length ds) b' ' ++ ds in
    if leb width 10 then some (if length l == 0 then b'0' ∷ [] else l) else none

-- The case of 'd', for a number that is an int's pattern. The least int has no digits.
abbrev pub magnitude : ℕ → ℕ
magnitude v = if ltb v int_min then v else if v == int_min then 0 else word - v

abbrev pub signed_numeral : (width v : ℕ) → Option (List ℕ)
signed_numeral width v =
    then_num (numeral width (magnitude v)) (λ l. some (if ltb v int_min then l else b'-' ∷ l))

-- A hexadecimal digit, and the eight of a word.
abbrev pub hex_digit : ℕ → ℕ
hex_digit d = if ltb d 10 then d + b'0' else d - 10 + b'a'

abbrev pub hex_text : ℕ → List ℕ
hex_text v =
    hex_digit (v / 2 ^ 28)
    ∷ hex_digit (v / 2 ^ 24 % 16)
    ∷ hex_digit (v / 2 ^ 20 % 16)
    ∷ hex_digit (v / 2 ^ 16 % 16)
    ∷ hex_digit (v / 2 ^ 12 % 16)
    ∷ hex_digit (v / 2 ^ 8 % 16)
    ∷ hex_digit (v / 2 ^ 4 % 16)
    ∷ hex_digit (v % 16)
    ∷ []

-- The text of one conversion, and the arguments left; none for a fault or a float.
abbrev pub int_text : List Arg → (ℕ → Option (List ℕ)) → Option (List ℕ × List Arg)
int_text (int v ∷ ap) k = then_num (k v) (λ l. some (l, ap))
int_text ap k = none

abbrev pub str_text : List Arg → Option (List ℕ × List Arg)
str_text (str s ∷ ap) = some (s, ap)
str_text ap = none

abbrev pub conversion : (width c : ℕ) → List Arg → Option (List ℕ × List Arg)
conversion width c ap =
    if c == b'c'
    then int_text ap (λ v. some (v % 256 ∷ []))
    else if c == b'u'
    then int_text ap (numeral width)
    else if (c == b'x') || (c == b'p')
    then int_text ap (λ v. some (hex_text v))
    else if c == b'd'
    then int_text ap (signed_numeral width)
    else if c == b'f'
    then none
    else if c == b's'
    then str_text ap
    else if isalpha c
    then none
    else some (c ∷ [], ap)

abbrev pub and_then : Option (List ℕ × List Arg) → (List Arg → Option (List ℕ)) → Option (List ℕ)
and_then none k = none
and_then (some (l, ap)) k = then_num (k ap) (λ t. some (l ++ t))

-- The text of a format.
unfoldable mutual
  pub text : List ℕ → List Arg → Option (List ℕ)
  text [] ap = some []
  text (c ∷ p) ap = elim (c == b'%') [
    | true ↦ text_of 0 p ap
    | false ↦ then_num (text p ap) (λ t. some (c ∷ t))
  ]

  pub text_of : (width : ℕ) → List ℕ → List Arg → Option (List ℕ)
  text_of width [] ap = none
  text_of width (c ∷ p) ap = elim (between b'0' b'9' c) [
    | true ↦ text_of (width * 10 + (c - b'0')) p ap
    | false ↦ and_then (conversion width c ap) (text p)
  ]

-- Every integer argument is a word.
abbrev pub Words : List Arg → Type 0
Words [] = Unit
Words (int v ∷ ap) = (v < word) × Words ap
Words (str s ∷ ap) = Words ap
