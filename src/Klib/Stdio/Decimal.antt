-- ===== src/Klib/Stdio/Decimal.antt =====
-- The digits that stdio.c puts into `num`.
use os_workbench.Base.{
  ℕ, zero, suc, ◌+◌, ◌/◌, ◌%◌, ◌^◌, ◌≤◌, ◌<◌, ◌≡◌, refl, true, false, some, List, [], ◌∷◌, ◌++◌,
  map, arith, ◌==◌, if◌then◌else◌, length, length-append, replicate, ap, ◌∙◌, sym, Bool-cases, inl,
  inr,
}
use mathlib.Core.List.{append_assoc}
use os_workbench.Klib.Stdlib.Atoi.{digit}
use os_workbench.Klib.Stdio.{push, digits, pad}

-- The decimal digits of a number of at most `k` digits, the highest first; none of 0.
abbrev pub decimal : ℕ → ℕ → List ℕ
decimal zero v = []
decimal (suc k) v = if v == 0 then [] else decimal k (v / 10) ++ (v % 10 ∷ [])

pub length-decimal : (k v : ℕ) → length (decimal k v) ≤ k
length-decimal zero v = omega arith
length-decimal (suc k) v = elim (Bool-cases (v == 0)) [
  | inl e ↦ rw e (omega arith)
  | inr e ↦
      rw e
        (omega (arith, length-append (decimal k (v / 10)) (v % 10 ∷ []), length-decimal k (v / 10)))
]

map-append : (l r : List ℕ) → map digit (l ++ r) ≡ map digit l ++ map digit r
map-append [] r = refl
map-append (x ∷ l) r = ap (λ t. digit x ∷ t) (map-append l r)

pub length-map : (l : List ℕ) → length (map digit l) ≡ length l
length-map [] = refl
length-map (x ∷ l) = ap suc (length-map l)

ten : (k v : ℕ) → v < 10 ^ suc k → v / 10 < 10 ^ k
ten k v h = omega (arith, h)

digits-step :
    (fuel v : ℕ) (num : List ℕ)
    → (v == 0) ≡ false
    → length num < 10
    → digits (suc fuel) v num ≡ digits fuel (v / 10) (digit (v % 10) ∷ num)
unfolding digits push
digits-step fuel v num e a =
    let free : (length num == 10) ≡ false = ground (arith, a) in
    let c : v % 10 + b'0' ≡ digit (v % 10) = omega arith in
    rw (e, digits) (rw (free, push) (ap (λ x. digits fuel (v / 10) (x ∷ num)) c))

-- The loop puts the digits before what `num` holds, when there is room.
pub digits-decimal :
    (k v : ℕ) (num : List ℕ)
    → v < 10 ^ k
    → length num + k ≤ 10
    → digits (suc k) v num ≡ some (map digit (decimal k v) ++ num)
unfolding digits push
digits-decimal zero v num h a = let e : (v == 0) ≡ true = ground (arith, h) in rw (e, digits) refl
digits-decimal (suc k) v num h a = elim (Bool-cases (v == 0)) [
  | inl e ↦ rw (e, digits) refl
  | inr e ↦ rw e (
      digits-step (suc k) v num e (omega arith)
      ∙ digits-decimal k (v / 10) (digit (v % 10) ∷ num) (ten k v h) (omega arith)
      ∙ ap some (
          sym (append_assoc (map digit (decimal k (v / 10))) (digit (v % 10) ∷ []) num)
          ∙ ap (λ l. l ++ num) (sym (map-append (decimal k (v / 10)) (v % 10 ∷ [])))))
]

replicate-snoc : (n x : ℕ) (l : List ℕ) → replicate n x ++ (x ∷ l) ≡ replicate (suc n) x ++ l
replicate-snoc zero x l = refl
replicate-snoc (suc n) x l = ap (λ t. x ∷ t) (replicate-snoc n x l)

pub pad-replicate :
    (n : ℕ) (num : List ℕ) → n + length num ≤ 10 → pad n num ≡ some (replicate n b' ' ++ num)
unfolding pad push
pad-replicate zero num h = refl
pad-replicate (suc n) num h =
    let free : (length num == 10) ≡ false = ground (arith, h) in
    rw free (pad-replicate n (b' ' ∷ num) (omega arith) ∙ ap some (replicate-snoc n b' ' num))
