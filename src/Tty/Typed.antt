-- ===== src/Tty/Typed.antt =====
-- What typing and reading do to the lines of tty.c, seen as a list of bytes in which each line ends
-- with a 0.
use os_workbench.Base.{
  ℕ, suc, ◌+◌, ◌<◌, ◌≡◌, refl, Bool, true, false, not, ◌&&◌, some, List, [], ◌∷◌, ◌++◌, arith, ◌==◌,
  if◌then◌else◌, length, length-append, ap, ◌∙◌, sym, Bool-cases, inl, inr, ==→eq,
}
use mathlib.Core.List.{append_assoc}
use os_workbench.Tty.Cook.{Queue, Lines, end_line, tty_cook}
use os_workbench.Tty.Line.{pending, IsValid, enqueue-pending, ends_open, rub, pop_back-pending}

-- How many lines the bytes end.
abbrev pub ended : List ℕ → ℕ
ended [] = 0
ended (x ∷ l) = if x == 0 then suc (ended l) else ended l

-- The bytes after one more is typed, and what the typing returns.
abbrev pub edited : ℕ → List ℕ → List ℕ
edited ch l =
    if ch == 10
    then l ++ (10 ∷ 0 ∷ [])
    else if ch == 0
    then l ++ (0 ∷ [])
    else if ch == 8
    then rub l
    else l ++ (ch ∷ [])

abbrev pub answer : ℕ → List ℕ → ℕ
answer ch l = if (ch == 8) && not (ends_open l) then 1 else 0

-- The queue is valid, and `cooked` counts its lines.
pub record Cooked (t : Lines) : Type 0 where
  pub queue_IsValid : IsValid t.queue
  pub counted : t.cooked ≡ ended (pending t.queue)

pub ended-append : (l r : List ℕ) → ended (l ++ r) ≡ ended l + ended r
ended-append [] r = omega arith
ended-append (x ∷ l) r = ground (arith, ended-append l r)

ended-rub : (l : List ℕ) → ended (rub l) ≡ ended l
ended-rub [] = refl
ended-rub (x ∷ []) = ground arith
ended-rub (x ∷ y ∷ l) = ground (arith, ended-rub (y ∷ l))

end_line-edited :
    (n : ℕ) (q : Queue)
    → IsValid q
    → n ≡ ended (pending q)
    → length (pending q) < 1023
    → (u : Lines) × (end_line n q ≡ some (0, u))
      × Cooked u
      × (pending u.queue ≡ pending q ++ (0 ∷ []))
unfolding end_line
end_line-edited n q v c h =
    let r = enqueue-pending q 0 v h in
    (
      record { queue = r.0; cooked = n + 1 },
      rw r.1 refl,
      record {
        queue_IsValid = r.2;
        counted = omega (arith, c, ap ended r.3, ended-append (pending q) (0 ∷ []));
      },
      r.3,
    )

choose : (b : Bool) → ◌≡◌ {A = ℕ} (if b then 0 else 1) (if not b then 1 else 0)
choose true = refl
choose false = refl

-- While at least two places are free, each byte typed does to the bytes of a valid queue what it
-- should: a newline is put at the end and ends the line, a 0 ends the line, a backspace takes back the
-- last byte unless that ends a line, and any other byte is put at the end. The call returns 1 for a
-- backspace that takes back nothing and else 0, does not panic, and the count of the lines to be read
-- stays right.
pub tty_cook-edited :
    (ch : ℕ) (t : Lines)
    → Cooked t
    → length (pending t.queue) < 1022
    → (u : Lines) × (tty_cook ch t ≡ some (answer ch (pending t.queue), u))
      × Cooked u
      × (pending u.queue ≡ edited ch (pending t.queue))
unfolding tty_cook
tty_cook-edited ch t v h = elim (Bool-cases (ch == 10)) [
  | inl a ↦ newline a
  | inr a ↦ elim (Bool-cases (ch == 0)) [
    | inl b ↦ eof a b
    | inr b ↦ elim (Bool-cases (ch == 8)) [ inl c ↦ back a b c | inr c ↦ byte a b c ]
  ]
]
  where
    l : List ℕ
    l = pending t.queue

    Goal : Type 0
    Goal =
        (u : Lines) × (tty_cook ch t ≡ some (answer ch (pending t.queue), u))
        × Cooked u
        × (pending u.queue ≡ edited ch (pending t.queue))

    newline : (ch == 10) ≡ true → Goal
    newline a =
        let e = ==→eq ch 10 a in
        let b : (ch == 8) ≡ false = ground (arith, e) in
        let d : (ch == 0) ≡ false = ground (arith, e) in
        let n : ended (ch ∷ []) ≡ 0 = rw d refl in
        let r = enqueue-pending t.queue ch v.queue_IsValid (omega (arith, h)) in
        let s =
          end_line-edited t.cooked r.0 r.2
            (omega (arith, v.counted, ap ended r.3, ended-append l (ch ∷ []), n))
            (omega (arith, h, ap (length {A = ℕ}) r.3, length-append l (ch ∷ []))) in
        (
          s.0,
          rw a (rw b (rw r.1 (s.1))),
          s.2,
          rw a (
              s.3
              ∙ ap (λ w. w ++ (0 ∷ [])) r.3
              ∙ append_assoc l (ch ∷ []) (0 ∷ [])
              ∙ ap (λ x. l ++ (x ∷ 0 ∷ [])) e),
        )

    eof : (ch == 10) ≡ false → (ch == 0) ≡ true → Goal
    eof a b =
        let s = end_line-edited t.cooked t.queue v.queue_IsValid v.counted (omega (arith, h)) in
        let c : (ch == 8) ≡ false = ground (arith, b) in
        (s.0, rw a (rw b (rw c (s.1))), s.2, rw a (rw b (s.3)))

    back : (ch == 10) ≡ false → (ch == 0) ≡ false → (ch == 8) ≡ true → Goal
    back a b c =
        let r = pop_back-pending t.queue v.queue_IsValid in
        (
          record t { queue = r.0 },
          rw a (
              rw b (
                rw c
                  (rw r.1 (ap (λ n. some (n, record t { queue = r.0 })) (choose (ends_open l)))))),
          record {
            queue_IsValid = r.2;
            counted = v.counted ∙ sym (ended-rub l) ∙ ap ended (sym r.3);
          },
          rw a (rw b (rw c (r.3))),
        )

    byte : (ch == 10) ≡ false → (ch == 0) ≡ false → (ch == 8) ≡ false → Goal
    byte a b c =
        let r = enqueue-pending t.queue ch v.queue_IsValid (omega (arith, h)) in
        let e : ended (ch ∷ []) ≡ 0 = rw b refl in
        (
          record t { queue = r.0 },
          rw a (rw b (rw c (rw r.1 refl))),
          record {
            queue_IsValid = r.2;
            counted = omega (arith, v.counted, ap ended r.3, ended-append l (ch ∷ []), e);
          },
          rw a (rw b (rw c (r.3))),
        )
