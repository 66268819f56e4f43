-- ===== src/Alloc/Cover.antt =====
-- The bytes of the blocks of kernel/src/alloc.c: no operation loses, doubles or invents one.
use os_workbench.Base.{
  ℕ, ◌+◌, ◌-◌, ◌%◌, ◌≤◌, ◌<◌, ◌≡◌, refl, ◌&&◌, none, some, List, [], ◌∷◌, ◌++◌, arith, ◌==◌, ltb,
  leb, if◌then◌else◌, Bool-cases, Option-cases, inl, inr, ap, ◌∙◌, sym, ==→eq,
}
use mathlib.Core.Path.{subst₂}
use os_workbench.Alloc.{
  Block, header, word, end, global_alloc, find, absorb, join_next, free_after, kfree_real,
}

-- 1 if the byte at `x` is the block's, else 0.
abbrev pub inside : ℕ → Block → ℕ
inside x b = if leb b.addr x && ltb x (end b) then 1 else 0

-- How many of the blocks hold the byte at `x`.
abbrev pub cover : ℕ → List Block → ℕ
cover x [] = 0
cover x (b ∷ bs) = inside x b + cover x bs

pub cover-append : (x : ℕ) (bs cs : List Block) → cover x (bs ++ cs) ≡ cover x bs + cover x cs
cover-append x [] cs = omega arith
cover-append x (b ∷ bs) cs = omega (arith, cover-append x bs cs)

-- What a search has found: a block of at least the size asked for, which with the blocks left holds
-- the bytes that the list held.
pub record Found (size : ℕ) (free : List Block) (b : Block) (free' : List Block) : Type 0 where
  pub enough : size ≤ b.size
  pub bytes : (x : ℕ) → cover x free ≡ inside x b + cover x free'

abbrev at : ℕ → ℕ → Block
at a n = record { addr = a; size = n }

-- A block cut in two, and two blocks joined.
inside_cut :
    (x a s n : ℕ)
    → n + header ≤ s
    → inside x (at a s) ≡ inside x (at (a + s - n) n) + inside x (at a (s - (n + header)))
inside_cut x a s n h = ground arith

inside-absorb :
    (x : ℕ) (b p : Block) → p.addr ≡ end b → inside x (absorb b p) ≡ inside x b + inside x p
inside-absorb x b p e = ground arith

find-cut :
    (size : ℕ) (p : Block) (ps : List Block)
    → size + header ≤ p.size
    → Found size
        (p ∷ ps)
        (at (p.addr + p.size - size) size)
        (at p.addr (p.size - (size + header)) ∷ ps)
find-cut size p ps h = record {
  enough = omega arith;
  bytes = λ x. omega (arith, inside_cut x p.addr p.size size h);
}

find-whole : (size : ℕ) (p : Block) (ps : List Block) → size ≤ p.size → Found size (p ∷ ps) p ps
find-whole size p ps h = record { enough = h; bytes = λ x. refl }

find-later :
    (size : ℕ) (p b : Block) (ps qs : List Block)
    → Found size ps b qs
    → Found size (p ∷ ps) b (p ∷ qs)
find-later size p b ps qs f = record { enough = f.enough; bytes = λ x. omega (arith, f.bytes x) }

-- Searching a free list, `find` returns a block with room for the size asked for, and the bytes of the
-- list are those of the block and of the list that is left: none is lost, and none is in both.
pub find-Found :
    (size : ℕ) (free free' : List Block) (b : Block)
    → size + header < word
    → find size free ≡ some (b, free')
    → Found size free b free'
unfolding find
find-Found size [] free' b h e = absurd (cc e)
find-Found size (p ∷ ps) free' b h e = elim (Bool-cases (leb ((size + header) % word) p.size)) [
  | inl cut ↦
      let fits : size + header ≤ p.size = ground (arith, cut) in
      let left = p.size - (size + header) % word in
      let whole : p.size - (size + header) ≡ left = omega (arith, h) in
      let q : some (at (p.addr + p.size - size) size, at p.addr left ∷ ps) ≡ some (b, free') =
        rw cut at e in
      subst₂ (Found size (p ∷ ps)) (cc q) (ap (λ n. at p.addr n ∷ ps) whole ∙ cc q)
        (find-cut size p ps fits)
  | inr small ↦ elim (Bool-cases (leb size p.size)) [
    | inl whole ↦
        let fits : size ≤ p.size = ground (arith, whole) in
        let q : some (p, ps) ≡ some (b, free') = rw (small, whole) at e in
        subst₂ (Found size (p ∷ ps)) (cc q) (cc q) (find-whole size p ps fits)
    | inr less ↦ elim (Option-cases (find size ps)) [
      | inl n ↦ let q : none ≡ some (b, free') = rw (small, less, n) at e in absurd (cc q)
      | inr ((c, qs), f) ↦
          let q : some (c, p ∷ qs) ≡ some (b, free') = rw (small, less, f) at e in
          subst₂ (Found size (p ∷ ps)) (cc q) (cc q)
            (find-later size p c ps qs (find-Found size ps qs c h f))
    ]
  ]
]

-- Cutting from the end of the global block.
pub global_alloc-bytes :
    (size addr : ℕ) (g g' : Block)
    → size + header < word
    → g.size < word
    → global_alloc size g ≡ some (addr, g')
    → (x : ℕ) → inside x g ≡ inside x (record { addr = addr; size = size }) + inside x g'
unfolding global_alloc
global_alloc-bytes size addr g g' h k e x =
    elim (Bool-cases (ltb ((size + header) % word) g.size)) [
      | inl more ↦
          let cut : (g.size + word - (size + header) % word) % word ≡ g.size - (size + header) =
            ground (arith, more) in
          let fits : size + header ≤ g.size = ground (arith, more) in
          let q : some (
            g.addr + g.size - size,
            at g.addr ((g.size + word - (size + header) % word) % word),
          )
              ≡ some (addr, g') =
            rw more at e in
          let there : g.addr + g.size - size ≡ addr = cc q in
          let last : at g.addr ((g.size + word - (size + header) % word) % word) ≡ g' = cc q in
          let left : at g.addr (g.size - (size + header)) ≡ g' = ap (at g.addr) (sym cut) ∙ last in
          subst₂ (λ u v. inside x g ≡ inside x (at u size) + inside x v) there left
            (inside_cut x g.addr g.size size fits)
      | inr full ↦ let q : none ≡ some (addr, g') = rw full at e in absurd (cc q)
    ]

join_next-bytes :
    (b : Block) (ps : List Block) (x : ℕ) → cover x (join_next b ps) ≡ inside x b + cover x ps
unfolding join_next
join_next-bytes b [] x = refl
join_next-bytes b (p ∷ ps) x = elim (Bool-cases (p.addr == end b)) [
  | inl e ↦ rw e (omega (arith, inside-absorb x b p (==→eq p.addr (end b) e)))
  | inr e ↦ rw e refl
]

after-prev :
    (b prev : Block) (ps : List Block) (x : ℕ)
    → cover x (if b.addr == end prev then join_next (absorb prev b) ps else prev ∷ join_next b ps)
      ≡ inside x b + inside x prev + cover x ps
after-prev b prev ps x = elim (Bool-cases (b.addr == end prev)) [
  | inl e ↦ rw e (
      omega (
        arith,
        inside-absorb x prev b (==→eq b.addr (end prev) e),
        join_next-bytes (absorb prev b) ps x,
      ))
  | inr e ↦ rw e (omega (arith, join_next-bytes b ps x))
]

free_after-bytes :
    (b prev : Block) (ps : List Block) (x : ℕ)
    → cover x (free_after b prev ps) ≡ inside x b + inside x prev + cover x ps
unfolding free_after
free_after-bytes b prev [] x = after-prev b prev [] x
free_after-bytes b prev (p ∷ ps) x = elim (Bool-cases (ltb b.addr p.addr)) [
  | inl e ↦ rw e (after-prev b prev (p ∷ ps) x)
  | inr e ↦ rw e (omega (arith, free_after-bytes b p ps x))
]

-- Wherever a freed block goes in, and whatever it is joined with, the bytes of the new list are those
-- of the old list and of the block.
pub kfree_real-bytes :
    (b : Block) (ps : List Block) (x : ℕ) → cover x (kfree_real b ps) ≡ inside x b + cover x ps
unfolding kfree_real
kfree_real-bytes b [] x = join_next-bytes b [] x
kfree_real-bytes b (p ∷ ps) x = elim (Bool-cases (ltb b.addr p.addr)) [
  | inl e ↦ rw e (join_next-bytes b (p ∷ ps) x)
  | inr e ↦ rw e (omega (arith, free_after-bytes b p ps x))
]
