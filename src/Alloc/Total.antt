-- ===== src/Alloc/Total.antt =====
-- `kalloc_real` of kernel/src/alloc.c ends: what it returns, and when.
use os_workbench.Base.{
  ℕ, suc, ◌+◌, ◌-◌, ◌%◌, ◌^◌, ◌≤◌, ◌<◌, ◌≡◌, refl, true, none, some, List, [], ◌∷◌, ◌++◌, arith,
  ltb, if◌then◌else◌, Option-cases, inl, inr,
}
use os_workbench.Alloc.{
  Block, header, word, pg_size, align, global_alloc, find, got, kalloc_loop, kalloc_real,
}
use os_workbench.Alloc.Cover.{inside, cover, cover-append, find-Found, global_alloc-bytes}

-- `align` to 16 rounds up to a multiple of 16.
pub align_up :
    (n : ℕ) → n + 15 < word → (n ≤ align n 0x10) × (align n 0x10 < n + 16) × (align n 0x10 % 16 ≡ 0)
align_up n h = omega arith

-- With a block of the size at its end, a search in vain becomes one that finds.
find-append :
    (size addr needed : ℕ) (ps : List Block)
    → size + header < word
    → size ≤ needed
    → find size ps ≡ none
    → find size (ps ++ (record { addr = addr; size = needed } ∷ [])) ≡ none
    → ⊥
unfolding find
find-append size addr needed [] h l e f = ground arith
find-append size addr needed (p ∷ ps) h l e f = elim (Option-cases (find size ps)) [
  | inl n ↦ elim (Option-cases (find size (ps ++ (record { addr = addr; size = needed } ∷ [])))) [
    | inl m ↦ find-append size addr needed ps h l n m
    | inr ((b, qs), m) ↦ ground (arith, n, m)
  ]
  | inr ((c, qs), n) ↦ ground (arith, n)
]

kalloc_loop-one :
    (fuel size : ℕ) (free free' : List Block) (b g : Block)
    → find size free ≡ some (b, free')
    → kalloc_loop (suc fuel) size free g ≡ got b free' g
unfolding kalloc_loop
kalloc_loop-one fuel size free free' b g e = ground (arith, e)

-- The global block has room for a page, or for a piece of the size if that is larger.
abbrev pub Room : ℕ → Block → Type 0
Room size g = (if ltb pg_size size then size else pg_size) + header < g.size

abbrev wanted : ℕ → ℕ
wanted size = if ltb pg_size size then size else pg_size

abbrev piece : ℕ → ℕ → Block
piece addr size = record { addr = addr; size = wanted size }

kalloc_loop-two :
    (size addr : ℕ) (free free' : List Block) (b g g' : Block)
    → find size free ≡ none
    → global_alloc (wanted size) g ≡ some (addr, g')
    → find size (free ++ (piece addr size ∷ [])) ≡ some (b, free')
    → kalloc_loop 2 size free g ≡ got b free' g'
unfolding kalloc_loop
kalloc_loop-two size addr free free' b g g' e f h = ground (arith, e, f, h)

global_alloc-Room :
    (size : ℕ) (g : Block)
    → wanted size + header < word
    → Room size g
    → (addr : ℕ) × (g' : Block) × (global_alloc (wanted size) g ≡ some (addr, g'))
      × (g'.size < word)
unfolding global_alloc
global_alloc-Room size g h r =
    let fits : ltb ((wanted size + header) % word) g.size ≡ true = ground arith in
    (
      g.addr + g.size - wanted size,
      record g { size = (g.size + word - (wanted size + header) % word) % word },
      rw fits refl,
      omega arith,
    )

-- What the request ends in: a block, from a list and a global block whose bytes are conserved.
pub record Served (size : ℕ) (free : List Block) (g b : Block) (free' : List Block) (g' : Block)
    : Type 0 where
  pub enough : size ≤ b.size
  pub bytes : (x : ℕ) → cover x free + inside x g ≡ inside x b + cover x free' + inside x g'
  pub small : g'.size < word

kalloc_loop-Served :
    (size : ℕ) (free : List Block) (g : Block)
    → size + header < word
    → g.size < word
    → Room size g
    → (b : Block) × (free' : List Block) × (g' : Block) × (kalloc_loop 2 size free g
        ≡ got b free' g')
      × Served size free g b free' g'
kalloc_loop-Served size free g h k r = elim (Option-cases (find size free)) [
  | inr ((b, free'), e) ↦
      let f = find-Found size free free' b h e in
      (
        b,
        free',
        g,
        kalloc_loop-one 1 size free free' b g e,
        record { enough = f.enough; bytes = λ x. omega (arith, f.bytes x); small = k },
      )
  | inl e ↦
      let small : wanted size + header < word = ground arith in
      let (addr, g', a, w) = global_alloc-Room size g small r in
      elim (Option-cases (find size (free ++ (piece addr size ∷ [])))) [
        | inl n ↦ absurd (find-append size addr (wanted size) free h (ground arith) e n)
        | inr ((b, free'), f) ↦
            let q = find-Found size (free ++ (piece addr size ∷ [])) free' b h f in
            (
              b,
              free',
              g',
              kalloc_loop-two size addr free free' b g g' e a f,
              record {
                enough = q.enough;
                bytes = λ x. omega (
                  arith,
                  q.bytes x,
                  cover-append x free (piece addr size ∷ []),
                  global_alloc-bytes (wanted size) addr g g' small k a x,
                );
                small = w;
              },
            )
      ]
]

-- A request of at most 2 ^ 31 bytes, with room in the global block, is served within the two rounds:
-- the block has at least the size asked for, rounded up to 16, and the bytes of the free list and the
-- global block before are those of the block, the free list and the global block after.
pub kalloc_real-Served :
    (size : ℕ) (free : List Block) (g : Block)
    → size ≤ 2 ^ 31
    → g.size < word
    → Room (align size 0x10) g
    → (b : Block) × (free' : List Block) × (g' : Block) × (kalloc_real size free g ≡ got b free' g')
      × Served (align size 0x10) free g b free' g'
unfolding kalloc_real
kalloc_real-Served size free g h k r =
    kalloc_loop-Served (align size 0x10) free g (omega (arith, align_up size)) k r
