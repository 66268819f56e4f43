-- ===== src/Klib/Stdio/Number.antt =====
-- The numbers that stdio.c puts out are those of the text.
use os_workbench.Base.{
  ℕ, zero, suc, ◌-◌, ◌*◌, ◌/◌, ◌%◌, ◌^◌, ◌≤◌, ◌<◌, ◌≡◌, refl, Bool, true, false, Option, none, some,
  List, [], ◌∷◌, ◌++◌, map, arith, ◌==◌, ltb, leb, if◌then◌else◌, length, replicate, ap, ◌∙◌, sym,
  Bool-cases, Option-cases, inl, inr, leb→le, ltb→le,
}
use mathlib.Core.Option.{some-injective}
use mathlib.Core.List.{append-nil}
use os_workbench.Klib.Stdlib.{word}
use os_workbench.Klib.Stdlib.Atoi.{digit}
use os_workbench.Klib.Stdio.{
  Out, going, stopped, fault, float, continue, output, outputs, digits, pad, number, int_min,
  signed_number, hex,
}
use os_workbench.Klib.Stdio.Decimal.{
  decimal, length-decimal, length-map, digits-decimal, pad-replicate,
}
use os_workbench.Klib.Stdio.Text.{numeral, magnitude, signed_numeral, hex_digit, hex_text}

pub outputs-append :
    (room : ℕ) (s t out : List ℕ)
    → continue (outputs room s out) (outputs room t) ≡ outputs room (s ++ t) out
unfolding outputs
outputs-append room [] t out = refl
outputs-append room (c ∷ s) t out =
    elim (output room c out)
      as (λ o.
        continue (continue o (outputs room s)) (outputs room t)
        ≡ continue o (outputs room (s ++ t))) [
          | going o ↦ outputs-append room s t o
          | stopped o ↦ refl
          | fault ↦ refl
          | float ↦ refl
        ]

pub continue-ext :
    (o : Out) (f g : List ℕ → Out) → ((l : List ℕ) → f l ≡ g l) → continue o f ≡ continue o g
continue-ext (going l) f g h = h l
continue-ext (stopped l) f g h = refl
continue-ext fault f g h = refl
continue-ext float f g h = refl

pub outputs-one : (room c : ℕ) (out : List ℕ) → output room c out ≡ outputs room (c ∷ []) out
unfolding output outputs
outputs-one room c out = elim (Bool-cases (ltb (length out) room)) [
  | inl e ↦ rw e refl
  | inr e ↦ rw e refl
]

pub opened :
    (room c : ℕ) (t out : List ℕ)
    → continue (output room c out) (outputs room t) ≡ outputs room (c ∷ t) out
unfolding outputs
opened room c t out = refl

pub number-numeral :
    (room width v : ℕ) (out t : List ℕ)
    → v < word
    → numeral width v ≡ some t
    → number room width v out ≡ outputs room t out
unfolding number
number-numeral room width v out t h e = elim (Bool-cases (leb width 10)) [
  | inl w ↦
      let d : digits 11 v [] ≡ some ds =
        digits-decimal 10 v [] (omega (arith, h)) (omega arith) ∙ ap some (append-nil ds) in
      let p : pad (width - length ds) ds ≡ some l =
        pad-replicate (width - length ds) ds (omega (arith, leb→le width 10 w, short)) in
      let q : some (if length l == 0 then b'0' ∷ [] else l) ≡ some t = rw w at e in
      rw (d, number)
        (rw (p, number)
          (choose (length l == 0)
            ∙ ap (λ x. outputs room x out)
                (some-injective (if length l == 0 then b'0' ∷ [] else l) t q)))
  | inr w ↦ let q : ◌≡◌ {A = Option (List ℕ)} none (some t) = rw w at e in (cc)
]
  where
    ds : List ℕ
    ds = map digit (decimal 10 v)

    l : List ℕ
    l = replicate (width - length ds) b' ' ++ ds

    short : length ds ≤ 10
    short = omega (arith, length-map (decimal 10 v), length-decimal 10 v)

    choose :
        (b : Bool)
        → (if b then output room b'0' out else outputs room l out)
          ≡ outputs room (if b then b'0' ∷ [] else l) out
    choose true = outputs-one room b'0' out
    choose false = refl

pub signed_number-numeral :
    (room width v : ℕ) (out t : List ℕ)
    → v < word
    → signed_numeral width v ≡ some t
    → signed_number room width v out ≡ outputs room t out
unfolding signed_number
signed_number-numeral room width v out t h e = elim (Option-cases (numeral width (magnitude v))) [
  | inl n ↦ let q : ◌≡◌ {A = Option (List ℕ)} none (some t) = rw n at e in (cc)
  | inr (l, n) ↦
      let q = some-injective (if ltb v int_min then l else b'-' ∷ l) t (rw n at e) in
      elim (Bool-cases (ltb v int_min)) [
        | inl b ↦
            let m : magnitude v ≡ v = rw b refl in
            rw b (
              number-numeral room width v out l h (ap (numeral width) (sym m) ∙ n)
              ∙ ap (λ x. outputs room x out) (rw b at q))
        | inr b ↦
            let m : (if ltb ((word - v) % word) int_min then (word - v) % word else 0)
                ≡ magnitude v =
              negated (ltb→le v int_min b) in
            rw b (
              continue-ext (output room b'-' out)
                (number room width
                  (if ltb ((word - v) % word) int_min then (word - v) % word else 0))
                (outputs room l)
                (λ o.
                  ap (λ x. number room width x o) m
                  ∙ number-numeral room width (magnitude v) o l (below (ltb→le v int_min b)) n)
              ∙ opened room b'-' l out
              ∙ ap (λ x. outputs room x out) (rw b at q))
      ]
]
  where
    negated :
        int_min ≤ v
        → (if ltb ((word - v) % word) int_min then (word - v) % word else 0) ≡ magnitude v
    negated a = ground (arith, h)

    below : int_min ≤ v → magnitude v < word
    below a = ground (arith, h)

-- What the shifts of `hex` leave in the top digit.
abbrev shifted : ℕ → ℕ
shifted v = v * 16 % word

shifts :
    (v : ℕ)
    → v < word
    → (shifted v / 2 ^ 28 ≡ v / 2 ^ 24 % 16)
      × (shifted (shifted v) / 2 ^ 28 ≡ v / 2 ^ 20 % 16)
      × (shifted (shifted (shifted v)) / 2 ^ 28 ≡ v / 2 ^ 16 % 16)
      × (shifted (shifted (shifted (shifted v))) / 2 ^ 28 ≡ v / 2 ^ 12 % 16)
      × (shifted (shifted (shifted (shifted (shifted v)))) / 2 ^ 28 ≡ v / 2 ^ 8 % 16)
      × (shifted (shifted (shifted (shifted (shifted (shifted v))))) / 2 ^ 28 ≡ v / 2 ^ 4 % 16)
      × (shifted (shifted (shifted (shifted (shifted (shifted (shifted v)))))) / 2 ^ 28 ≡ v % 16)
shifts v h = (
  omega (arith, h),
  omega (arith, h),
  omega (arith, h),
  omega (arith, h),
  omega (arith, h),
  omega (arith, h),
  omega (arith, h),
)

-- The digits that `hex` puts out.
tops : ℕ → ℕ → List ℕ
tops zero v = []
tops (suc i) v = hex_digit (v / 2 ^ 28) ∷ tops i (shifted v)

hex-tops : (room i v : ℕ) (out : List ℕ) → hex room i v out ≡ outputs room (tops i v) out
unfolding hex outputs tops
hex-tops room zero v out = refl
hex-tops room (suc i) v out =
    continue-ext (output room (hex_digit (v / 2 ^ 28)) out) (hex room i (shifted v))
      (outputs room (tops i (shifted v))) (hex-tops room i (shifted v))

pub hex-text :
    (room v : ℕ) (out : List ℕ) → v < word → hex room 8 v out ≡ outputs room (hex_text v) out
unfolding tops
hex-text room v out h =
    let s = shifts v h in
    hex-tops room 8 v out ∙ (λ i.
      outputs room
        (hex_digit (v / 2 ^ 28)
          ∷ hex_digit (s.0 i)
          ∷ hex_digit (s.1 i)
          ∷ hex_digit (s.2 i)
          ∷ hex_digit (s.3 i)
          ∷ hex_digit (s.4 i)
          ∷ hex_digit (s.5 i)
          ∷ hex_digit (s.6 i)
          ∷ [])
        out)
