-- ===== src/Klib/Stdio.antt =====
-- abstract-machine/libs/klib/src/stdio.c: formatted output. A string is the list of its bytes up to the
-- NUL. An int, an unsigned int and a pointer are 32-bit patterns. The branch of "%f" is left out. The
-- code's test of *p for '0' looks at the '%', so the fill is always a blank.
pub mod Decimal
pub mod Text
pub mod Number
pub mod Convert
pub mod Full
pub mod Roundtrip
mod Tests
use os_workbench.Base.{
  ℕ, zero, suc, ◌+◌, ◌-◌, ◌*◌, ◌/◌, ◌%◌, ◌^◌, Bool, true, false, ◌&&◌, ◌||◌, Option, none, some,
  List, [], ◌∷◌, ◌++◌, ◌==◌, ltb, leb, if◌then◌else◌, length,
}
use os_workbench.Klib.Stdlib.{word}

-- An argument behind the format.
pub data Arg : Type 0 where
  int : ℕ → Arg
  str : List ℕ → Arg

-- The bytes in `out` so far; or `output` has found no room and has ended the call; or a fault: an
-- argument of another kind, a byte beyond `num`, a format that ends behind a '%', a failed assertion.
pub data Out : Type 0 where
  going : List ℕ → Out
  stopped : List ℕ → Out
  fault : Out
  float : Out

abbrev pub continue : Out → (List ℕ → Out) → Out
continue (going out) k = k out
continue (stopped out) k = stopped out
continue fault k = fault
continue float k = float

-- The macro `output`; `room` is n - 1, and `cnt` the length of `out`.
unfoldable pub output : (room c : ℕ) → List ℕ → Out
output room c out = if ltb (length out) room then going (out ++ (c ∷ [])) else stopped out

-- `output` of one byte after the other: a string, or `num` from its last byte on.
unfoldable pub outputs : (room : ℕ) → List ℕ → List ℕ → Out
outputs room [] out = going out
outputs room (c ∷ cs) out = continue (output room c out) (outputs room cs)

-- `num[i++] = c`, with `num` as a stack, the last byte first, and `i` its length.
unfoldable pub push : ℕ → List ℕ → Option (List ℕ)
push c num = if length num == 10 then none else some (c ∷ num)

abbrev pub then_num {ℓ} : {A : Type ℓ} → Option (List ℕ) → (List ℕ → Option A) → Option A
then_num none k = none
then_num (some num) k = k num

-- `while (uval > 0) { ... }`; none also without fuel.
unfoldable pub digits : ℕ → ℕ → List ℕ → Option (List ℕ)
digits zero uval num = none
digits (suc fuel) uval num = elim (uval == 0) [
  | true ↦ some num
  | false ↦ then_num (push (uval % 10 + b'0') num) (digits fuel (uval / 10))
]

-- `while (fill_width > i) num[i++] = fill;`, which runs `n` times.
unfoldable pub pad : ℕ → List ℕ → Option (List ℕ)
pad zero num = some num
pad (suc n) num = then_num (push b' ' num) (pad n)

-- From the loop of the digits to the loop that puts out `num`.
unfoldable pub number : (room fill_width uval : ℕ) → List ℕ → Out
number room fill_width uval out =
    elim (then_num (digits 11 uval []) (λ num. pad (fill_width - length num) num)) [
      | none ↦ fault
      | some num ↦ if length num == 0 then output room b'0' out else outputs room num out
    ]

abbrev pub int_min : ℕ
int_min = 2 ^ 31

-- The case of 'd'. A negation that is still negative runs no round of the digits.
unfoldable pub signed_number : (room fill_width ival : ℕ) → List ℕ → Out
signed_number room fill_width ival out =
    let negated = (word - ival) % word in
    if ltb ival int_min
    then number room fill_width ival out
    else continue (output room b'-' out)
        (number room fill_width (if ltb negated int_min then negated else 0))

-- The loop of the cases of 'x' and 'p', `i` rounds.
unfoldable pub hex : (room i uval : ℕ) → List ℕ → Out
hex room zero uval out = going out
hex room (suc i) uval out =
    let d = uval / 2 ^ 28 in
    continue (output room (if ltb d 10 then d + b'0' else d - 10 + b'a') out)
      (hex room i (uval * 16 % word))

abbrev pub between : ℕ → ℕ → ℕ → Bool
between a b c = leb a c && leb c b

abbrev pub isalpha : ℕ → Bool
isalpha c = between b'a' b'z' c || between b'A' b'Z' c

abbrev pub int_arg : List Arg → (ℕ → Out) → Out × List Arg
int_arg [] k = (fault, [])
int_arg (int v ∷ ap) k = (k v, ap)
int_arg (str s ∷ ap) k = (fault, ap)

abbrev pub str_arg : List Arg → (List ℕ → Out) → Out × List Arg
str_arg [] k = (fault, [])
str_arg (int v ∷ ap) k = (fault, ap)
str_arg (str s ∷ ap) k = (k s, ap)

-- The default case.
abbrev pub otherwise : (room c : ℕ) → List Arg → List ℕ → Out × List Arg
otherwise room c ap out = if isalpha c then (fault, ap) else (output room c out, ap)

-- The switch on the byte behind the width, and the arguments left.
unfoldable pub convert : (room fill_width c : ℕ) → List Arg → List ℕ → Out × List Arg
convert room fill_width c ap out =
    if c == b'c'
    then int_arg ap (λ v. output room (v % 256) out)
    else if c == b'u'
    then int_arg ap (λ v. number room fill_width v out)
    else if (c == b'x') || (c == b'p')
    then int_arg ap (λ v. hex room 8 v out)
    else if c == b'd'
    then int_arg ap (λ v. signed_number room fill_width v out)
    else if c == b'f'
    then (float, ap)
    else if c == b's'
    then str_arg ap (λ s. outputs room s out)
    else otherwise room c ap out

-- The loop over the format, and the one over the digits of a width.
unfoldable mutual
  pub format : (room : ℕ) → List ℕ → List Arg → List ℕ → Out
  format room [] ap out = going out
  format room (c ∷ p) ap out = elim (c == b'%') [
    | true ↦ directive room 0 p ap out
    | false ↦ continue (output room c out) (format room p ap)
  ]

  pub directive : (room fill_width : ℕ) → List ℕ → List Arg → List ℕ → Out
  directive room fill_width [] ap out = fault
  directive room fill_width (c ∷ p) ap out = elim (between b'0' b'9' c) [
    | true ↦ directive room (fill_width * 10 + (c - b'0')) p ap out
    | false ↦ let r = convert room fill_width c ap out in continue r.0 (format room p r.1)
  ]

-- What the call leaves: the bytes before the NUL, and what it returns.
pub data Printed : Type 0 where
  printed : (bytes : List ℕ) (ret : ℕ) → Printed
  failed : Printed
  with_float : Printed

abbrev pub finish : Out → Printed
finish (going out) = printed out (length out)
finish (stopped out) = printed out (length out)
finish fault = failed
finish float = with_float

-- `vsnprintf_real`; n - 1 wraps at 0.
unfoldable pub vsnprintf : (n : ℕ) → List ℕ → List Arg → Printed
vsnprintf n fmt ap = finish (format ((n + word - 1) % word) fmt ap [])

unfoldable pub sprintf : List ℕ → List Arg → Printed
sprintf fmt ap = vsnprintf (word - 1) fmt ap
