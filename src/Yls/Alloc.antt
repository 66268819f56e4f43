-- ===== src/Yls/Alloc.antt =====
-- Which block `new_block` of kernel/src/yls/string.c gives.
use mathlib.Core.Path.{ap₂}
use os_workbench.Base.{
  ℕ, zero, suc, ◌+◌, ◌*◌, ◌/◌, ◌%◌, ◌≤◌, ◌<◌, ◌≡◌, refl, sym, ap, ◌∙◌, ◌⊎◌, Bool, true, false,
  Option, some, List, [], ◌∷◌, ◌++◌, ◌==◌, leb, if◌then◌else◌, arith, length, get_or, set, take,
  drop, length-take, length-set, get_or-set_self, get_or-set_ne, Bool-cases, inl, inr, ==→eq, ==→ne,
}
use os_workbench.Klib.Stdlib.{word}
use os_workbench.Disk.{rd_read, rd_write, clipped}
use os_workbench.Disk.Access.{clipped-min, rd_read-take}
use os_workbench.Yls.{bit, set_bit, clear_byte, marked, taken, new_block}
use os_workbench.Yls.Bits.{bit-set_bit, clear_byte-IsFirst, IsFirst}

get_or-take : (n q : ℕ) (xs : List ℕ) → q < n → get_or (take n xs) q 0 ≡ get_or xs q 0
get_or-take zero q xs l = absurd (omega arith)
get_or-take (suc n) q [] l = refl
get_or-take (suc n) zero (x ∷ xs) l = refl
get_or-take (suc n) (suc q) (x ∷ xs) l = get_or-take n q xs (omega arith)

take-set :
    (i x : ℕ) (xs : List ℕ) → i < length xs → take i xs ++ (x ∷ []) ++ drop (suc i) xs ≡ set xs i x
take-set i x [] l = absurd (omega arith)
take-set zero x (y ∷ xs) l = refl
take-set (suc i) x (y ∷ xs) l = ap (λ t. y ∷ t) (take-set i x xs (omega arith))

-- Writing one byte inside the disk.
pub rd_write-set :
    (rd : List ℕ) (i x : ℕ)
    → length rd < word
    → i < length rd
    → rd_write rd i (x ∷ []) 1 ≡ some (1, set rd i x)
unfolding rd_write
rd_write-set rd i x a b =
    let c : clipped rd i 1 ≡ 1 = clipped-min rd i 1 a (omega arith) ∙ omega arith in
    let ok : leb (i + 1) (length rd) ≡ true = ground arith in
    let e : i + 1 ≡ suc i = omega arith in
    rw c (
      rw ok (
        ap {B = Option (ℕ × List ℕ)} (λ l. some (1, l))
          (ap (λ k. take i rd ++ (x ∷ []) ++ drop k rd) e ∙ take-set i x rd b)))

pub read_avail :
    (rd : List ℕ)
    → length rd < word
    → 0x40 ≤ length rd
    → rd_read rd 0 0x40 ≡ some (0x40, take 0x40 rd)
read_avail rd a b =
    rd_read-take rd 0 0x40 a (omega arith)
    ∙ ap {B = Option (ℕ × List ℕ)} (λ n. some (n, take n rd)) (omega arith)

-- The bit of the `k`-th block.
abbrev pub used : List ℕ → ℕ → Bool
used rd k = bit (get_or rd (k / 8) 0) (k % 8)

marks :
    (rd : List ℕ) (p j : ℕ)
    → p < length rd
    → j < 8
    → (l : ℕ)
    → used (set rd p (set_bit (get_or rd p 0) j)) l ≡ (if l == 8 * p + j then true else used rd l)
marks rd p j a b l =
    let x = set_bit (get_or rd p 0) j in
    elim (Bool-cases (l / 8 == p)) [
      | inl y ↦
          let e = ==→eq (l / 8) p y in
          let test : (l % 8 == j) ≡ (l == 8 * p + j) = ground (arith, e) in
          ap (λ q. bit (get_or (set rd p x) q 0) (l % 8)) e
          ∙ ap (λ v. bit v (l % 8)) (get_or-set_self rd p x 0 a)
          ∙ bit-set_bit (get_or rd p 0) j (l % 8)
          ∙ ap (λ q. if l % 8 == j then true else bit (get_or rd q 0) (l % 8)) (sym e)
          ∙ ap (λ t. if t then true else used rd l) test
      | inr y ↦
          let ne = ==→ne (l / 8) p y in
          let test : (l == 8 * p + j) ≡ false = ground (arith, ne) in
          ap (λ v. bit v (l % 8)) (get_or-set_ne rd p (l / 8) x 0 (λ q. ne (sym q)))
          ∙ sym (ap (λ t. if t then true else used rd l) test)
    ]

-- What the search finds in the first bytes of a disk, said of its blocks.
lower_used :
    (rd : List ℕ) (p j : ℕ)
    → p < 0x40
    → IsFirst (take 0x40 rd) p j
    → (used rd (8 * p + j) ≡ false) × ((l : ℕ) → l < 8 * p + j → used rd l ≡ true)
lower_used rd p j a f =
    let at : (q : ℕ) → q < 0x40 → get_or rd q 0 ≡ get_or (take 0x40 rd) q 0 =
      λ q x. sym (get_or-take 0x40 q rd x) in
    (
      ap (λ x. bit (get_or rd x 0) ((8 * p + j) % 8)) (omega (arith, f.1))
          ∙ ap (bit (get_or rd p 0)) (omega (arith, f.1))
          ∙ ap (λ x. bit x j) (at p a)
          ∙ f.2,
      λ l m.
          ap (λ x. bit x (l % 8)) (at (l / 8) (omega (arith, f.1)))
          ∙ elim (Bool-cases (l / 8 == p)) [
            | inl y ↦
                ap (λ x. bit (get_or (take 0x40 rd) x 0) (l % 8)) (==→eq (l / 8) p y)
                ∙ f.3 (l % 8) (omega (arith, ==→eq (l / 8) p y))
            | inr y ↦ f.4 (l / 8) (grind (arith, ==→ne (l / 8) p y, f.1)) (l % 8) (omega arith)
          ],
    )

pub new_block-taken :
    (rd : List ℕ)
    → length rd < word
    → 0x40 ≤ length rd
    → new_block rd ≡ taken rd (clear_byte (take 0x40 rd) 0)
unfolding new_block
new_block-taken rd a b = rw (read_avail rd a b, new_block) refl

-- On a disk of at least 0x40 bytes `new_block` gives 0 and changes nothing if every block is in use;
-- else it gives the lowest block that is not, and marks that one and no other as in use.
pub new_block_lowest :
    (rd : List ℕ)
    → length rd < word
    → 0x40 ≤ length rd
    → ((new_block rd ≡ some (0, rd)) × ((k : ℕ) → k < 0x200 → used rd k ≡ true))
      ⊎ ((k : ℕ) × (rd' : List ℕ) × (new_block rd ≡ some (k * 0x80, rd'))
          × (k < 0x200)
          × (used rd k ≡ false)
          × ((l : ℕ) → l < k → used rd l ≡ true)
          × ((l : ℕ) → used rd' l ≡ (if l == k then true else used rd l))
          × ((q : ℕ) → 0x40 ≤ q → get_or rd' q 0 ≡ get_or rd q 0)
          × (length rd' ≡ length rd))
new_block_lowest rd a b =
    let at : (q : ℕ) → q < 0x40 → get_or (take 0x40 rd) q 0 ≡ get_or rd q 0 =
      λ q. get_or-take 0x40 q rd in
    let size : length (take 0x40 rd) ≡ 0x40 = omega (arith, length-take 0x40 rd) in
    elim (clear_byte-IsFirst (take 0x40 rd) 0) [
      | inl (n, all) ↦ inl (
        new_block-taken rd a b ∙ ap (taken rd) n,
        λ k l.
            ap (λ x. bit x (k % 8)) (sym (at (k / 8) (omega arith)))
            ∙ all (k / 8) (omega (arith, size)) (k % 8) (omega arith),
      )
      | inr (p, j, s, f) ↦
          let l : p < 0x40 = omega (arith, f.0, size) in
          let low = lower_used rd p j l f in
          let x = set_bit (get_or rd p 0) j in
          inr (
            8 * p + j,
            set rd p x,
            new_block-taken rd a b
                ∙ ap (taken rd) (s ∙ ap₂ (λ i v. some (i, j, v)) (omega arith) (at p l))
                ∙ ap (marked ((8 * p + j) * 0x80)) (rd_write-set rd p x a (omega arith)),
            omega (arith, f.1),
            low.0,
            low.1,
            marks rd p j (omega arith) f.1,
            λ q m. get_or-set_ne rd p q x 0 (λ e. absurd (omega arith)),
            length-set rd p x,
          )
    ]
