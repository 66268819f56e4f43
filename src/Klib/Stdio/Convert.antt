-- ===== src/Klib/Stdio/Convert.antt =====
-- Each conversion of stdio.c puts out its text.
use os_workbench.Base.{
  ℕ, ◌%◌, ◌<◌, ◌≡◌, refl, ◌||◌, Option, none, some, List, [], ◌∷◌, ◌==◌, if◌then◌else◌, ap, ◌∙◌,
  Bool-cases, Option-cases, inl, inr,
}
use mathlib.Core.Path.{subst}
use mathlib.Core.Option.{some-injective}
use os_workbench.Klib.Stdlib.{word}
use os_workbench.Klib.Stdio.{
  Arg, int, str, int_arg, str_arg, Out, fault, float, output, outputs, number, signed_number, hex,
  isalpha, convert,
}
use os_workbench.Klib.Stdio.Text.{
  numeral, signed_numeral, hex_text, int_text, str_text, conversion, Words,
}
use os_workbench.Klib.Stdio.Number.{outputs-one, number-numeral, signed_number-numeral, hex-text}

-- What `convert` does is put out the text.
abbrev pub Puts : (room : ℕ) → List ℕ → List ℕ → List Arg → Out × List Arg → Type 0
Puts room out l ap' r = (r ≡ (outputs room l out, ap')) × Words ap'

puts :
    (room : ℕ) (out l l' : List ℕ) (args args' : List Arg) (o : Out)
    → Words args
    → o ≡ outputs room l out
    → ◌≡◌ {A = Option (List ℕ × List Arg)} (some (l, args)) (some (l', args'))
    → Puts room out l' args' (o, args)
puts room out l l' args args' o w e q =
    let p = some-injective (l, args) (l', args') q in
    (
      λ i. ((e ∙ ap (λ (x : List ℕ × List Arg). outputs room x.0 out) p) i, (p i).1),
      subst Words (λ i. (p i).1) w,
    )

int_arg-int_text :
    (room : ℕ) (out l : List ℕ) (f : ℕ → Out) (k : ℕ → Option (List ℕ)) (ap ap' : List Arg)
    → ((v : ℕ) (t : List ℕ) → v < word → k v ≡ some t → f v ≡ outputs room t out)
    → Words ap
    → int_text ap k ≡ some (l, ap')
    → Puts room out l ap' (int_arg ap f)
int_arg-int_text room out l f k [] ap' h w e = (cc)
int_arg-int_text room out l f k (str s ∷ ap) ap' h w e = (cc)
int_arg-int_text room out l f k (int v ∷ ap) ap' h w e = elim (Option-cases (k v)) [
  | inl n ↦ let q : ◌≡◌ {A = Option (List ℕ × List Arg)} none (some (l, ap')) = rw n at e in (cc)
  | inr (t, n) ↦ puts room out t l ap ap' (f v) w.1 (h v t w.0 n) (rw n at e)
]

str_arg-str_text :
    (room : ℕ) (out l : List ℕ) (args args' : List Arg)
    → Words args
    → str_text args ≡ some (l, args')
    → Puts room out l args' (str_arg args (λ s. outputs room s out))
str_arg-str_text room out l [] args' w e = (cc)
str_arg-str_text room out l (int v ∷ args) args' w e = (cc)
str_arg-str_text room out l (str s ∷ args) args' w e =
    puts room out s l args args' (outputs room s out) w refl e

-- The cases below those of integers.
others :
    (room c : ℕ) (args : List Arg) (out l : List ℕ) (args' : List Arg)
    → Words args
    → (if c == b'f'
        then none
        else if c == b's'
        then str_text args
        else if isalpha c
        then none
        else some (c ∷ [], args))
      ≡ some (l, args')
    → Puts room out l args' (
        if c == b'f'
        then (float, args)
        else if c == b's'
        then str_arg args (λ s. outputs room s out)
        else if isalpha c
        then (fault, args)
        else (output room c out, args))
others room c args out l args' w e = elim (Bool-cases (c == b'f')) [
  | inl a ↦ let q : ◌≡◌ {A = Option (List ℕ × List Arg)} none (some (l, args')) = rw a at e in (cc)
  | inr a ↦
      let ea = rw a at e in
      elim (Bool-cases (c == b's')) [
        | inl b ↦ rw (a, b) (str_arg-str_text room out l args args' w (rw b at ea))
        | inr b ↦
            let eb = rw b at ea in
            elim (Bool-cases (isalpha c)) [
              | inl d ↦
                  let q : ◌≡◌ {A = Option (List ℕ × List Arg)} none (some (l, args')) =
                    rw d at eb in
                  (cc)
              | inr d ↦
                  rw (a, b, d)
                    (puts room out (c ∷ []) l args args' (output room c out) w
                      (outputs-one room c out) (rw d at eb))
            ]
      ]
]

pub convert-conversion :
    (room width c : ℕ) (ap : List Arg) (out l : List ℕ) (ap' : List Arg)
    → Words ap
    → conversion width c ap ≡ some (l, ap')
    → Puts room out l ap' (convert room width c ap out)
unfolding convert
convert-conversion room width c args out l args' w e = elim (Bool-cases (c == b'c')) [
  | inl a ↦ rw a (
      int_arg-int_text room out l (λ v. output room (v % 256) out) (λ v. some (v % 256 ∷ [])) args
        args'
        (λ v t h k.
          outputs-one room (v % 256) out
          ∙ ap (λ x. outputs room x out) (some-injective (v % 256 ∷ []) t k))
        w (rw a at e))
  | inr a ↦
      let ea = rw a at e in
      elim (Bool-cases (c == b'u')) [
        | inl b ↦
            rw (a, b)
              (int_arg-int_text room out l (λ v. number room width v out) (numeral width) args args'
                (λ v t h k. number-numeral room width v out t h k) w (rw b at ea))
        | inr b ↦
            let eb = rw b at ea in
            elim (Bool-cases ((c == b'x') || (c == b'p'))) [
              | inl d ↦
                  rw (a, b, d)
                    (int_arg-int_text room out l (λ v. hex room 8 v out) (λ v. some (hex_text v))
                      args args'
                      (λ v t h k.
                        hex-text room v out h
                        ∙ ap (λ x. outputs room x out) (some-injective (hex_text v) t k))
                      w (rw d at eb))
              | inr d ↦
                  let ed = rw d at eb in
                  elim (Bool-cases (c == b'd')) [
                    | inl f ↦
                        rw (a, b, d, f)
                          (int_arg-int_text room out l (λ v. signed_number room width v out)
                            (signed_numeral width) args args'
                            (λ v t h k. signed_number-numeral room width v out t h k) w
                            (rw f at ed))
                    | inr f ↦
                        let ef = rw f at ed in rw (a, b, d, f) (others room c args out l args' w ef)
                  ]
            ]
      ]
]
