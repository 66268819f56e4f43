-- ===== src/Alloc.antt =====
-- The memory manager kernel/src/alloc.c: a free list for each CPU, and the global block behind them.
-- A circular list behind its sentinel is the list of its blocks, a block being its `header`'s address
-- and `size`; the `size + 16` bytes from the address on are the block's. Addresses and sizes are 32-bit.
-- `kalloc` runs with interrupts closed, `kfree` without closing them, and `global_alloc` under its
-- lock.
pub mod Cover
pub mod Total
pub mod Heap
mod Tests
use os_workbench.Base.{
  ℕ, zero, suc, ◌+◌, ◌-◌, ◌*◌, ◌/◌, ◌%◌, ◌^◌, Bool, true, false, Option, none, some, List, [], ◌∷◌,
  ◌++◌, ◌==◌, ltb, leb, if◌then◌else◌,
}

pub record Block : Type 0 where
  pub addr : ℕ
  pub size : ℕ

-- `sizeof(header)`
abbrev pub header : ℕ
header = 16

abbrev pub word : ℕ
word = 2 ^ 32

abbrev pub pg_size : ℕ
pg_size = 8 * 2 ^ 10

-- `align(_A,_B)`
abbrev pub align : ℕ → ℕ → ℕ
align a b = (a + b - 1) % word / b * b

-- The first byte behind a block.
abbrev pub end : Block → ℕ
end b = b.addr + header + b.size

-- `pmm_init`: where the heap starts, aligned to a page, and the global block over it.
unfoldable pub pmm_init : (start finish : ℕ) → Block
pmm_init start finish =
    let pm_start = align start pg_size in
    record { addr = pm_start; size = (finish + word - pm_start + word - header) % word }

-- `global_alloc_real`: the block that is cut from the end, and the global block. The result's `size`
-- is not set here.
unfoldable pub global_alloc : ℕ → Block → Option (ℕ × Block)
global_alloc size g =
    if ltb ((size + header) % word) g.size
    then some (
      g.addr + g.size - size,
      record g { size = (g.size + word - (size + header) % word) % word },
    )
    else none

-- The inner loop of `kalloc_real`: the first block that is large enough to be cut, or just large
-- enough to be taken whole. `none` is the end of the list.
unfoldable pub find : ℕ → List Block → Option (Block × List Block)
find size [] = none
find size (p ∷ ps) =
    let rest = find size ps in
    if leb ((size + header) % word) p.size
    then some (
      record { addr = p.addr + p.size - size; size = size },
      record p { size = p.size - (size + header) % word } ∷ ps,
    )
    else if leb size p.size
    then some (p, ps)
    else elim rest [ none ↦ none | some (b, qs) ↦ some (b, p ∷ qs) ]

-- What `kalloc_real` ends in: a block with the free list and the global block left, the failed
-- `Assert` of an exhausted heap, or no fuel for another round of `while(1)`.
pub data Result : Type 0 where
  got : Block → List Block → Block → Result
  exhausted : Result
  out_of_fuel : Result

-- `while(1)`: a search, and after a search in vain a new piece of at least a page at the list's end.
unfoldable pub kalloc_loop : ℕ → ℕ → List Block → Block → Result
unfolding find global_alloc
kalloc_loop zero size free global = out_of_fuel
kalloc_loop (suc fuel) size free global = elim (find size free) [
  | some (b, free') ↦ got b free' global
  | none ↦
      let needed = if ltb pg_size size then size else pg_size in
      elim (global_alloc needed global) [
        | none ↦ exhausted
        | some (addr, global') ↦
            kalloc_loop fuel size (free ++ (record { addr = addr; size = needed } ∷ [])) global'
      ]
]

-- `kalloc_real`; two rounds are enough.
unfoldable pub kalloc_real : ℕ → List Block → Block → Result
unfolding kalloc_loop
kalloc_real size free global = kalloc_loop 2 (align size 0x10) free global

-- A block takes in the one behind it. (Both lie in the heap, so the sum does not wrap.)
abbrev pub absorb : Block → Block → Block
absorb b p = record b { size = b.size + (header + p.size) }

-- The second half of `kfree_real`: `to_free` is in the list before `ps`, and takes in the next block if
-- that begins where `to_free` ends. (The sentinel lies in the kernel's image, where no block ends.)
unfoldable pub join_next : Block → List Block → List Block
join_next b [] = b ∷ []
join_next b (p ∷ ps) = if p.addr == end b then absorb b p ∷ ps else b ∷ p ∷ ps

-- `kfree_real` behind a block `prevp` of the list: the walk to the first block behind `to_free`, and
-- the two merges.
unfoldable pub free_after : Block → Block → List Block → List Block
free_after b prev [] =
    if b.addr == end prev then join_next (absorb prev b) [] else prev ∷ join_next b []
free_after b prev (p ∷ ps) =
    if ltb b.addr p.addr
    then (if b.addr == end prev
        then join_next (absorb prev b) (p ∷ ps)
        else prev ∷ join_next b (p ∷ ps))
    else prev ∷ free_after b p ps

-- `kfree_real` on the list behind the sentinel, which no block joins.
unfoldable pub kfree_real : Block → List Block → List Block
kfree_real b [] = join_next b []
kfree_real b (p ∷ ps) = if ltb b.addr p.addr then join_next b (p ∷ ps) else free_after b p ps
