-- ===== src/Klib/Stdio/Roundtrip.antt =====
-- What "%d" of stdio.c prints, `atoi` of stdlib.c reads.
use os_workbench.Base.{
  ℕ, zero, suc, ◌+◌, ◌-◌, ◌*◌, ◌/◌, ◌%◌, ◌^◌, ◌≤◌, ◌<◌, ◌≡◌, refl, ◌≢◌, false, Option, some, List,
  [], ◌∷◌, ◌++◌, map, arith, ◌==◌, ltb, if◌then◌else◌, length, All, ap, ◌∙◌, sym, Bool-cases, inl,
  inr, ==→eq, ==→ne, ltb→lt, ltb→le,
}
use mathlib.Core.Path.{subst}
use mathlib.Core.List.{append-nil}
use os_workbench.Klib.Stdlib.{word, atoi8, prefixed, atoi}
use os_workbench.Klib.Stdlib.Atoi.{digit, value, value-first, bare, minus, atoi-signed}
use os_workbench.Klib.Stdio.{int, printed, sprintf, int_min, then_num}
use os_workbench.Klib.Stdio.Decimal.{decimal, length-decimal, length-map}
use os_workbench.Klib.Stdio.Text.{magnitude, numeral, and_then, signed_numeral, text}
use os_workbench.Klib.Stdio.Full.{sprintf-text}

value-snoc : (a : ℕ) (l : List ℕ) (x : ℕ) → value a (l ++ (x ∷ [])) ≡ value a l * 10 + x
unfolding value
value-snoc a [] x = refl
value-snoc a (d ∷ l) x = value-snoc (a * 10 + d) l x

tenth : (k v : ℕ) → v < 10 ^ suc k → v / 10 < 10 ^ k
tenth k v h = omega (arith, h)

value-decimal : (k v : ℕ) → v < 10 ^ k → value 0 (decimal k v) ≡ v
unfolding value
value-decimal zero v h = omega (arith, h)
value-decimal (suc k) v h = elim (Bool-cases (v == 0)) [
  | inl e ↦ rw e (sym (==→eq v 0 e))
  | inr e ↦ rw e (
      value-snoc 0 (decimal k (v / 10)) (v % 10)
      ∙ omega (arith, value-decimal k (v / 10) (tenth k v h)))
]

All-snoc : (l : List ℕ) (x : ℕ) → All (λ d. d < 10) l → x < 10 → All (λ d. d < 10) (l ++ (x ∷ []))
All-snoc [] x a h = (h, tt)
All-snoc (d ∷ l) x a h = (a.0, All-snoc l x a.1 h)

decimal-All : (k v : ℕ) → All (λ d. d < 10) (decimal k v)
decimal-All zero v = tt
decimal-All (suc k) v = elim (Bool-cases (v == 0)) [
  | inl e ↦ rw e tt
  | inr e ↦ rw e (All-snoc (decimal k (v / 10)) (v % 10) (decimal-All k (v / 10)) (omega arith))
]

decimal_zero : (k : ℕ) → decimal k 0 ≡ []
decimal_zero zero = refl
decimal_zero (suc k) = refl

decimal-first :
    (k v : ℕ) → 0 < v → v < 10 ^ k → (d : ℕ) × (ds : List ℕ) × (decimal k v ≡ d ∷ ds) × (0 < d)
decimal-first zero v a h = absurd (omega (arith, h))
decimal-first (suc k) v a h =
    let e : (v == 0) ≡ false = ground (arith, a) in
    elim (Bool-cases (v / 10 == 0)) [
      | inl z ↦
          let q = ==→eq (v / 10) 0 z in
          (
            v % 10,
            [],
            rw e (
                ap (λ n. decimal k n ++ (v % 10 ∷ [])) q
                ∙ ap (λ l. l ++ (v % 10 ∷ [])) (decimal_zero k)),
            omega (arith, a, q),
          )
      | inr z ↦
          let r = decimal-first k (v / 10) (omega (arith, ==→ne (v / 10) 0 z)) (tenth k v h) in
          (r.0, r.1 ++ (v % 10 ∷ []), rw e (ap (λ l. l ++ (v % 10 ∷ [])) r.2), r.3)
    ]

-- "%d"
abbrev pub d_format : List ℕ
d_format = b'%' ∷ b'd' ∷ []

text-d_format :
    (v : ℕ) (l : List ℕ) → signed_numeral 0 v ≡ some l → text d_format (int v ∷ []) ≡ some l
unfolding text
text-d_format v l e =
    ap (λ o. and_then (then_num o (λ l. some (l, []))) (text [])) e
    ∙ ap {B = Option (List ℕ)} some (append-nil l)

numeral-decimal : (m : ℕ) → 0 < m → m < 10 ^ 10 → numeral 0 m ≡ some (map digit (decimal 10 m))
numeral-decimal m a h =
    let r = decimal-first 10 m a h in
    let none_left : 0 - length (map digit (decimal 10 m)) ≡ 0 = omega arith in
    let some_digits : (length (map digit (decimal 10 m)) == 0) ≡ false =
      ground (arith, length-map (decimal 10 m), ap (length {A = ℕ}) r.2) in
    rw (none_left, some_digits) refl

-- A number with a minus before it, or not.
signed_numeral-decimal :
    (v : ℕ)
    → v ≢ 0
    → v < word
    → v ≢ int_min
    → signed_numeral 0 v ≡ (
        if ltb v int_min
        then some (map digit (decimal 10 v))
        else some (b'-' ∷ map digit (decimal 10 (word - v))))
signed_numeral-decimal v a h n = elim (Bool-cases (ltb v int_min)) [
  | inl p ↦
      let m : magnitude v ≡ v = rw p refl in
      let q : numeral 0 (magnitude v) ≡ some (map digit (decimal 10 v)) =
        ap (numeral 0) m ∙ numeral-decimal v (omega (arith, a)) (omega (arith, h)) in
      ap (λ o. then_num o (λ l. some (if ltb v int_min then l else b'-' ∷ l))) q ∙ (rw p refl)
  | inr p ↦
      let ne : (v == int_min) ≡ false = ground (arith, n) in
      let m : magnitude v ≡ word - v = rw (p, ne) refl in
      let q : numeral 0 (magnitude v) ≡ some (map digit (decimal 10 (word - v))) =
        ap (numeral 0) m
        ∙ numeral-decimal (word - v) (omega (arith, h)) (omega (arith, a, ltb→le v int_min p)) in
      ap (λ o. then_num o (λ l. some (if ltb v int_min then l else b'-' ∷ l))) q ∙ (rw p refl)
]

short : (m : ℕ) → length (map digit (decimal 10 m)) ≤ 10
short m = omega (arith, length-map (decimal 10 m), length-decimal 10 m)

-- `atoi` of the digits of a number, with a minus before them or not.
atoi-decimal :
    (m : ℕ)
    → 0 < m
    → m < 2 ^ 31
    → (atoi (map digit (decimal 10 m)) ≡ m) × (atoi (b'-' ∷ map digit (decimal 10 m)) ≡ word - m)
atoi-decimal m a h =
    let r = decimal-first 10 m a (omega (arith, h)) in
    let all = subst (All (λ d. d < 10)) r.2 (decimal-All 10 m) in
    let val : value r.0 r.1 ≡ m =
      sym (value-first r.0 r.1) ∙ ap (value 0) (sym r.2) ∙ value-decimal 10 m (omega (arith, h)) in
    (
      ap (λ l. atoi (map digit l)) r.2
          ∙ atoi-signed bare r.0 r.1 r.3 all.0 all.1 (omega (arith, val, h))
          ∙ val,
      ap (λ l. atoi (b'-' ∷ map digit l)) r.2
          ∙ atoi-signed minus r.0 r.1 r.3 all.0 all.1 (omega (arith, val, h))
          ∙ ap (λ n. word - n) val,
    )

-- What `sprintf` prints of an int by "%d", `atoi` reads back, for every int but the least.
pub sprintf-atoi :
    (v : ℕ)
    → v < word
    → v ≢ int_min
    → (b : List ℕ) × (sprintf d_format (int v ∷ []) ≡ printed b (length b)) × (atoi b ≡ v)
unfolding atoi prefixed atoi8
sprintf-atoi v h n = elim (Bool-cases (v == 0)) [
  | inl e ↦
      let z = ==→eq v 0 e in
      let b : List ℕ = b'0' ∷ [] in
      (b, prints b (text-d_format v b (ap (signed_numeral 0) z)) (omega arith), sym z)
  | inr e ↦
      let a = ==→ne v 0 e in
      let s = signed_numeral-decimal v a h n in
      elim (Bool-cases (ltb v int_min)) [
        | inl p ↦
            let b = map digit (decimal 10 v) in
            let lt = ltb→lt v int_min p in
            (
              b,
              prints b (text-d_format v b (s ∙ (rw p refl))) (omega (arith, short v)),
              (atoi-decimal v (omega (arith, a)) lt).0,
            )
        | inr p ↦
            let m = word - v in
            let b = b'-' ∷ map digit (decimal 10 m) in
            let le = ltb→le v int_min p in
            let r = atoi-decimal m (omega (arith, h)) (omega (arith, n, le)) in
            (
              b,
              prints b (text-d_format v b (s ∙ (rw p refl))) (omega (arith, short m)),
              r.1 ∙ omega (arith, h),
            )
      ]
]
  where
    prints :
        (b : List ℕ)
        → text d_format (int v ∷ []) ≡ some b
        → length b ≤ 11
        → sprintf d_format (int v ∷ []) ≡ printed b (length b)
    prints b e l = sprintf-text d_format (int v ∷ []) b (h, tt) e (omega (arith, l))
