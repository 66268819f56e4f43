-- ===== src/Yls/Bits.antt =====
-- The bits of bytes as kernel/src/yls/string.c tests and sets them, and its search for a clear one.
use os_workbench.Base.{
  ℕ, zero, suc, ◌+◌, ◌*◌, ◌/◌, ◌%◌, ◌≤◌, ◌<◌, ◌≡◌, refl, sym, ap, ◌∙◌, ◌⊎◌, true, false, none, some,
  List, [], ◌∷◌, ◌==◌, if◌then◌else◌, arith, length, get_or, Bool-cases, Option-cases, inl, inr,
  ==→eq, ==→ne,
}
use mathlib.Core.Option.{some-injective}
use os_workbench.Yls.{bit, set_bit, clear_bit, clear_byte}

-- Setting a bit sets that one and no other.
pub bit-set_bit : (b j k : ℕ) → bit (set_bit b j) k ≡ (if k == j then true else bit b k)
unfolding bit set_bit
bit-set_bit b zero zero = ground arith
bit-set_bit b zero (suc k) =
    let half : (if b % 2 == 1 then b else b + 1) / 2 ≡ b / 2 = ground arith in
    let ne : (suc k == 0) ≡ false = ground arith in
    ap (λ x. bit x k) half ∙ sym (ap (λ t. if t then true else bit (b / 2) k) ne)
bit-set_bit b (suc j) zero =
    let low : (2 * set_bit (b / 2) j + b % 2) % 2 ≡ b % 2 = omega arith in
    let ne : (0 == suc j) ≡ false = ground arith in
    ap (λ x. x == 1) low ∙ sym (ap (λ t. if t then true else b % 2 == 1) ne)
bit-set_bit b (suc j) (suc k) =
    let half : (2 * set_bit (b / 2) j + b % 2) / 2 ≡ set_bit (b / 2) j = omega arith in
    let same : (suc k == suc j) ≡ (k == j) = ground arith in
    ap (λ x. bit x k) half
    ∙ bit-set_bit (b / 2) j k
    ∙ sym (ap (λ t. if t then true else bit (b / 2) k) same)

-- All eight bits are set.
abbrev pub IsFull : ℕ → Type 0
IsFull b = (j : ℕ) → j < 8 → bit b j ≡ true

ff-IsFull : IsFull 0xff
unfolding bit
ff-IsFull zero l = refl
ff-IsFull (suc zero) l = refl
ff-IsFull (suc (suc zero)) l = refl
ff-IsFull (suc (suc (suc zero))) l = refl
ff-IsFull (suc (suc (suc (suc zero)))) l = refl
ff-IsFull (suc (suc (suc (suc (suc zero))))) l = refl
ff-IsFull (suc (suc (suc (suc (suc (suc zero)))))) l = refl
ff-IsFull (suc (suc (suc (suc (suc (suc (suc zero))))))) l = refl
ff-IsFull (suc (suc (suc (suc (suc (suc (suc (suc j)))))))) l = absurd (omega arith)

clear_bit-some :
    (n j b m : ℕ)
    → clear_bit n j b ≡ some m
    → (j ≤ m) × (m < j + n) × (bit b m ≡ false) × ((l : ℕ) → j ≤ l → l < m → bit b l ≡ true)
unfolding clear_bit
clear_bit-some zero j b m e = absurd (cc e)
clear_bit-some (suc n) j b m e = elim (Bool-cases (bit b j)) [
  | inl q ↦
      let r = clear_bit-some n (j + 1) b m (rw (q, clear_bit) at e) in
      (
        omega (arith, r.0),
        omega (arith, r.1),
        r.2,
        λ l x y. elim (Bool-cases (l == j)) [
          | inl z ↦ ap (bit b) (==→eq l j z) ∙ q
          | inr z ↦ r.3 l (grind (arith, ==→ne l j z)) y
        ],
      )
  | inr q ↦
      let m' : j ≡ m = some-injective j m (rw (q, clear_bit) at e) in
      (
        omega (arith, m'),
        omega (arith, m'),
        ap (bit b) (sym m') ∙ q,
        λ l x y. absurd (omega (arith, m')),
      )
]

clear_bit-none : (n j b : ℕ) → clear_bit n j b ≡ none → (l : ℕ) → j ≤ l → l < j + n → bit b l ≡ true
unfolding clear_bit
clear_bit-none zero j b e l x y = absurd (omega arith)
clear_bit-none (suc n) j b e l x y = elim (Bool-cases (bit b j)) [
  | inl q ↦ elim (Bool-cases (l == j)) [
    | inl z ↦ ap (bit b) (==→eq l j z) ∙ q
    | inr z ↦
        clear_bit-none n (j + 1) b (rw (q, clear_bit) at e) l (grind (arith, ==→ne l j z))
          (omega arith)
  ]
  | inr q ↦ absurd (cc (rw (q, clear_bit) at e))
]

-- A byte is passed over exactly if it is full.
skipped :
    (b i : ℕ) (bs : List ℕ)
    → (IsFull b × (clear_byte (b ∷ bs) i ≡ clear_byte bs (i + 1)))
      ⊎ ((j : ℕ) × (clear_byte (b ∷ bs) i ≡ some (i, j, b))
          × (j < 8)
          × (bit b j ≡ false)
          × ((l : ℕ) → l < j → bit b l ≡ true))
unfolding clear_byte
skipped b i bs = elim (Bool-cases (b == 0xff)) [
  | inl q ↦ inl (rw (==→eq b 0xff q) ff-IsFull, rw q refl)
  | inr q ↦ elim (Option-cases (clear_bit 8 0 b)) [
    | inl e ↦ inl (λ l y. clear_bit-none 8 0 b e l (omega arith) (omega arith), rw q (rw e refl))
    | inr (j, e) ↦
        let r = clear_bit-some 8 0 b j e in
        inr (j, rw q (rw e refl), omega (arith, r.1), r.2, λ l y. r.3 l (omega arith) y)
  ]
]

-- What the search finds: the first byte that is not full, and in it the lowest clear bit.
abbrev pub IsFirst : List ℕ → ℕ → ℕ → Type 0
IsFirst bs p j =
    (p < length bs)
    × (j < 8)
    × (bit (get_or bs p 0) j ≡ false)
    × ((l : ℕ) → l < j → bit (get_or bs p 0) l ≡ true)
    × ((q : ℕ) → q < p → IsFull (get_or bs q 0))

IsFull-cons :
    (b : ℕ) (bs : List ℕ) (n : ℕ)
    → IsFull b
    → ((q : ℕ) → q < n → IsFull (get_or bs q 0))
    → (q : ℕ) → q < suc n
    → IsFull (get_or (b ∷ bs) q 0)
IsFull-cons b bs n f all zero l = f
IsFull-cons b bs n f all (suc q) l = all q (omega arith)

pub clear_byte-IsFirst :
    (bs : List ℕ) (i : ℕ)
    → ((clear_byte bs i ≡ none) × ((q : ℕ) → q < length bs → IsFull (get_or bs q 0)))
      ⊎ ((p j : ℕ) × (clear_byte bs i ≡ some (i + p, j, get_or bs p 0)) × IsFirst bs p j)
unfolding clear_byte
clear_byte-IsFirst [] i = inl (refl, λ q l. absurd (omega arith))
clear_byte-IsFirst (b ∷ bs) i = elim (skipped b i bs) [
  | inr (j, e, l, c, low) ↦ inr (
    0,
    j,
    e ∙ ap (λ x. some (x, j, b)) (omega arith),
    (omega arith, l, c, low, λ q x. absurd (omega arith)),
  )
  | inl (f, e) ↦ elim (clear_byte-IsFirst bs (i + 1)) [
    | inl (n, all) ↦ inl (e ∙ n, IsFull-cons b bs (length bs) f all)
    | inr (p, j, s, l) ↦ inr (
      suc p,
      j,
      e ∙ s ∙ ap (λ x. some (x, j, get_or bs p 0)) (omega arith),
      (omega (arith, l.0), l.1, l.2, l.3, IsFull-cons b bs p f l.4),
    )
  ]
]
