-- ===== src/Klib/Stdlib/Atoi.antt =====
-- What `atoi` of stdlib.c reads from a number as it is written.
use os_workbench.Base.{
  ℕ, ◌+◌, ◌-◌, ◌*◌, ◌%◌, ◌^◌, ◌≤◌, ◌<◌, ◌≡◌, refl, List, [], ◌∷◌, map, arith, All, ap, ◌∙◌,
}
use os_workbench.Klib.Stdlib.{word, rand, atoi10, atoi}

-- The value of digits, the first the highest, behind a number `v`.
unfoldable pub value : ℕ → List ℕ → ℕ
value v [] = v
value v (d ∷ ds) = value (v * 10 + d) ds

abbrev pub digit : ℕ → ℕ
digit d = b'0' + d

value-lo : (v : ℕ) (ds : List ℕ) → v ≤ value v ds
unfolding value
value-lo v [] = omega arith
value-lo v (d ∷ ds) = omega (arith, value-lo (v * 10 + d) ds)

atoi10-value :
    (v : ℕ) (ds : List ℕ)
    → All (λ d. d < 10) ds
    → value v ds < word
    → atoi10 v (map digit ds) ≡ value v ds
unfolding atoi10 value
atoi10-value v [] a h = refl
atoi10-value v (d ∷ ds) a h =
    let e : (v * 10 + digit d + word - b'0') % word ≡ v * 10 + d =
      omega (arith, value-lo (v * 10 + d) ds, a.0) in
    ap (λ r. atoi10 r (map digit ds)) e ∙ atoi10-value (v * 10 + d) ds a.1 h

pub value-first : (d : ℕ) (ds : List ℕ) → value 0 (d ∷ ds) ≡ value d ds
unfolding value
value-first d ds = let e : 0 * 10 + d ≡ d = omega arith in ap (λ v. value v ds) e

-- A sign as it is written, and what it makes of a number.
pub data Sign : Type 0 where
  bare : Sign
  plus : Sign
  minus : Sign

abbrev pub written : Sign → List ℕ → List ℕ
written bare s = s
written plus s = b'+' ∷ s
written minus s = b'-' ∷ s

abbrev pub signed : Sign → ℕ → ℕ
signed bare n = n
signed plus n = n
signed minus n = word - n

-- `atoi` of a decimal number below 2 ^ 31 that does not begin with 0, with a sign or without, returns
-- the number, as the pattern of an `int`.
pub atoi-signed :
    (g : Sign) (d : ℕ) (ds : List ℕ)
    → 0 < d
    → d < 10
    → All (λ e. e < 10) ds
    → value d ds < 2 ^ 31
    → atoi (written g (map digit (d ∷ ds))) ≡ signed g (value d ds)
unfolding atoi
atoi-signed g d ds p q a h = go g
  where
    whole : atoi10 0 (map digit (d ∷ ds)) ≡ value d ds
    whole = atoi10-value 0 (d ∷ ds) (q, a) (omega (arith, value-first d ds)) ∙ value-first d ds

    go : (g : Sign) → atoi (written g (map digit (d ∷ ds))) ≡ signed g (value d ds)
    go bare = ground (arith, whole)
    go plus = ground (arith, whole)
    go minus = ground (arith, whole, value-lo d ds)

-- `rand` returns a number below 32768, and its state stays a word.
pub rand-bounds : (next : ℕ) → ((rand next).0 < 32768) × ((rand next).1 < word)
unfolding rand
rand-bounds next = (omega arith, omega arith)
