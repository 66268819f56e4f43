-- ===== src/Klib/Stdio/Full.antt =====
-- All of a format's text, and what of it there is room for.
use os_workbench.Base.{
  ℕ, zero, suc, ◌+◌, ◌-◌, ◌*◌, ◌%◌, ◌≤◌, ◌<◌, ◌≡◌, refl, Option, none, some, List, [], ◌∷◌, ◌++◌,
  arith, ◌==◌, ltb, length, length-append, take, ap, ◌∙◌, sym, Bool-cases, Option-cases, inl, inr,
  ltb→lt, ltb→le,
}
use mathlib.Core.Option.{some-injective}
use mathlib.Core.List.{append_assoc, append-nil}
use os_workbench.Klib.Stdlib.{word}
use os_workbench.Klib.Stdio.{
  Arg, output, outputs, finish, between, format, directive, printed, vsnprintf, sprintf,
}
use os_workbench.Klib.Stdio.Text.{conversion, text, text_of, Words}
use os_workbench.Klib.Stdio.Number.{outputs-append, continue-ext, opened}
use os_workbench.Klib.Stdio.Convert.{convert-conversion}

take_nil : (n : ℕ) → take {A = ℕ} n [] ≡ []
take_nil zero = refl
take_nil (suc n) = refl

-- What the loops over the format put out.
abbrev Formats : (room : ℕ) → List ℕ → Type 0
Formats room p =
    ((args : List Arg) (out t : List ℕ)
      → Words args
      → text p args ≡ some t
      → format room p args out ≡ outputs room t out)
    × ((width : ℕ) (args : List Arg) (out t : List ℕ)
        → Words args
        → text_of width p args ≡ some t
        → directive room width p args out ≡ outputs room t out)

module _ (room c : ℕ) (p : List ℕ) (ih : Formats room p) where
  plain :
      (args : List Arg) (out t : List ℕ)
      → Words args
      → text (c ∷ p) args ≡ some t
      → format room (c ∷ p) args out ≡ outputs room t out
  unfolding format text
  plain args out t w e = elim (Bool-cases (c == b'%')) [
    | inl a ↦ rw (a, format) (ih.1 0 args out t w (rw (a, text) at e))
    | inr a ↦ elim (Option-cases (text p args)) [
      | inl n ↦ let q : ◌≡◌ {A = Option (List ℕ)} none (some t) = rw (a, n, text) at e in (cc)
      | inr (r, n) ↦
          let q : ◌≡◌ {A = Option (List ℕ)} (some (c ∷ r)) (some t) = rw (a, n, text) at e in
          rw (a, format)
            (continue-ext (output room c out) (format room p args) (outputs room r)
                (λ o. ih.0 args o r w n)
              ∙ opened room c r out
              ∙ ap (λ l. outputs room l out) (some-injective (c ∷ r) t q))
    ]
  ]

  convert_one :
      (width : ℕ) (args : List Arg) (out t : List ℕ)
      → Words args
      → text_of width (c ∷ p) args ≡ some t
      → directive room width (c ∷ p) args out ≡ outputs room t out
  unfolding format text
  convert_one width args out t w e = elim (Bool-cases (between b'0' b'9' c)) [
    | inl a ↦ rw (a, directive) (ih.1 (width * 10 + (c - b'0')) args out t w (rw (a, text_of) at e))
    | inr a ↦ elim (Option-cases (conversion width c args)) [
      | inl n ↦ let q : ◌≡◌ {A = Option (List ℕ)} none (some t) = rw (a, n, text_of) at e in (cc)
      | inr ((l, args'), n) ↦
          let d = convert-conversion room width c args out l args' w n in
          elim (Option-cases (text p args')) [
            | inl m ↦
                let q : ◌≡◌ {A = Option (List ℕ)} none (some t) = rw (a, n, m, text_of) at e in (cc)
            | inr (r, m) ↦
                let q : ◌≡◌ {A = Option (List ℕ)} (some (l ++ r)) (some t) =
                  rw (a, n, m, text_of) at e in
                rw (a, d.0, directive)
                  (continue-ext (outputs room l out) (format room p args') (outputs room r)
                      (λ o. ih.0 args' o r d.1 m)
                    ∙ outputs-append room l r out
                    ∙ ap (λ x. outputs room x out) (some-injective (l ++ r) t q))
          ]
    ]
  ]

format-text : (room : ℕ) (p : List ℕ) → Formats room p
unfolding format text outputs
format-text room [] = (
  λ args out t w e. ap (λ l. outputs room l out) (some-injective [] t e),
  λ width args out t w e. (cc),
)
format-text room (c ∷ p) =
    let ih = format-text room p in (plain room c p ih, convert_one room c p ih)

outputs-take :
    (room : ℕ) (t out : List ℕ)
    → length out ≤ room
    → finish (outputs room t out)
      ≡ printed (out ++ take (room - length out) t) (length (out ++ take (room - length out) t))
unfolding outputs output
outputs-take room [] out h =
    ap (λ l. printed l (length l))
      (sym (append-nil out) ∙ ap (λ l. out ++ l) (sym (take_nil (room - length out))))
outputs-take room (c ∷ t) out h = elim (Bool-cases (ltb (length out) room)) [
  | inl a ↦
      let n : room - length out ≡ suc (room - length (out ++ (c ∷ []))) =
        omega (arith, length-append out (c ∷ []), ltb→lt (length out) room a) in
      rw (a, n)
        (outputs-take room t (out ++ (c ∷ []))
            (omega (arith, length-append out (c ∷ []), ltb→lt (length out) room a))
          ∙ ap (λ l. printed l (length l))
              (append_assoc out (c ∷ []) (take (room - length (out ++ (c ∷ []))) t)))
  | inr a ↦
      let n : room - length out ≡ 0 = omega (arith, ltb→le (length out) room a) in
      rw (a, n) (ap (λ l. printed l (length l)) (sym (append-nil out)))
]

-- A format with a text, its integers words, printed into `n` bytes: what the call leaves are the first
-- n - 1 bytes of the text, all of it when it is shorter, and it returns how many they are. `n` is not 0.
pub vsnprintf-text :
    (n : ℕ) (fmt : List ℕ) (args : List Arg) (t : List ℕ)
    → 0 < n
    → n < word
    → Words args
    → text fmt args ≡ some t
    → vsnprintf n fmt args ≡ printed (take (n - 1) t) (length (take (n - 1) t))
unfolding vsnprintf
vsnprintf-text n fmt args t a b w e =
    let room : (n + word - 1) % word ≡ n - 1 = omega (arith, a, b) in
    let whole : n - 1 - 0 ≡ n - 1 = omega arith in
    rw room (
      ap finish ((format-text (n - 1) fmt).0 args [] t w e)
      ∙ outputs-take (n - 1) t [] (omega arith)
      ∙ ap (λ k. printed (take k t) (length (take k t))) whole)

take_all : (n : ℕ) (t : List ℕ) → length t ≤ n → take n t ≡ t
take_all zero [] h = refl
take_all zero (x ∷ t) h = absurd (omega arith)
take_all (suc n) [] h = refl
take_all (suc n) (x ∷ t) h = ap (λ l. x ∷ l) (take_all n t (omega arith))

pub sprintf-text :
    (fmt : List ℕ) (args : List Arg) (t : List ℕ)
    → Words args
    → text fmt args ≡ some t
    → length t ≤ word - 2
    → sprintf fmt args ≡ printed t (length t)
unfolding sprintf
sprintf-text fmt args t w e h =
    vsnprintf-text (word - 1) fmt args t (omega arith) (omega arith) w e
    ∙ ap (λ l. printed l (length l)) (take_all (word - 1 - 1) t h)
